-- ===== src/Shares/Sharing/Xor.antt =====
-- What the parties do to binary shares alone they do, bit by bit, to the shared words.
use iris_mpc.Prelude.{ℕ, ◌^◌, ◌<◌, ◌≡◌, ◌∙◌, Bool, ◌&&◌, bit_and, bit_xor, arith}
use iris_mpc.Prelude.Bits.{
  bit_at, bit_at-ext, bit_at-bit_and, bit_at-bit_xor, bit_xor-lt, bit_and-lt, xor as bool_xor,
}
use iris_mpc.Id.{Trio, map_trio, zip_trio}
use iris_mpc.Shares.Share.{Share, xor, and, and_local}
use iris_mpc.Shares.Sharing.{IsXorSharing}

ruleset bits = (bit_at-bit_and, bit_at-bit_xor)

bool_xor_six :
    (a b c d e f : Bool)
    → bool_xor (bool_xor (bool_xor a d) (bool_xor b e)) (bool_xor c f)
      ≡ bool_xor (bool_xor (bool_xor a b) c) (bool_xor (bool_xor d e) f)
bool_xor_six a b c d e f = ground arith

xor_three :
    (a b c d e f : ℕ)
    → bit_xor (bit_xor (bit_xor a d) (bit_xor b e)) (bit_xor c f)
      ≡ bit_xor (bit_xor (bit_xor a b) c) (bit_xor (bit_xor d e) f)
xor_three a b c d e f = bit_at-ext _ _ λ i.
    simp bits
      (bool_xor_six (bit_at a i) (bit_at b i) (bit_at c i) (bit_at d i) (bit_at e i) (bit_at f i))

and_three :
    (a b c d : ℕ)
    → bit_xor (bit_xor (bit_and a d) (bit_and b d)) (bit_and c d)
      ≡ bit_and (bit_xor (bit_xor a b) c) d
and_three a b c d = bit_at-ext _ _ λ i. simp bits (ground arith)

bool_product :
    (a b c d e f : Bool)
    → bool_xor
        (bool_xor
          (bool_xor (bool_xor (a && d) (c && d)) (a && f))
          (bool_xor (bool_xor (b && e) (a && e)) (b && d)))
        (bool_xor (bool_xor (c && f) (b && f)) (c && e))
      ≡ (bool_xor (bool_xor a b) c && bool_xor (bool_xor d e) f)
bool_product a b c d e f = ground arith

product_three :
    (a b c d e f : ℕ)
    → bit_xor
        (bit_xor
          (bit_xor (bit_xor (bit_and a d) (bit_and c d)) (bit_and a f))
          (bit_xor (bit_xor (bit_and b e) (bit_and a e)) (bit_and b d)))
        (bit_xor (bit_xor (bit_and c f) (bit_and b f)) (bit_and c e))
      ≡ bit_and (bit_xor (bit_xor a b) c) (bit_xor (bit_xor d e) f)
product_three a b c d e f = bit_at-ext _ _ λ i.
    simp bits
      (bool_product (bit_at a i) (bit_at b i) (bit_at c i) (bit_at d i) (bit_at e i) (bit_at f i))

bool_zero :
    (a b c d e f : Bool)
    → bool_xor
        (bool_xor (bool_xor a (bool_xor d f)) (bool_xor b (bool_xor e d)))
        (bool_xor c (bool_xor f e))
      ≡ bool_xor (bool_xor a b) c
bool_zero a b c d e f = ground arith

module _ (k : ℕ) {s t : Trio Share} {x y : ℕ} where
  -- The parties' exclusive ors of binary shares of `x` and of `y` are shares of the exclusive or.
  pub xor-IsXorSharing :
      IsXorSharing k s x → IsXorSharing k t y → IsXorSharing k (zip_trio xor s t) (bit_xor x y)
  unfolding xor
  xor-IsXorSharing hs ht = record {
    replicated = record {
      b0 = rw (hs.b0, ht.b0);
      b1 = rw (hs.b1, ht.b1);
      b2 = rw (hs.b2, ht.b2);
      lt0 = bit_xor-lt k _ _ hs.lt0 ht.lt0;
      lt1 = bit_xor-lt k _ _ hs.lt1 ht.lt1;
      lt2 = bit_xor-lt k _ _ hs.lt2 ht.lt2;
    };
    value = rw (← hs.value, ← ht.value) (xor_three s.p0.a s.p1.a s.p2.a t.p0.a t.p1.a t.p2.a);
  }

  -- The parties' local ANDs of binary shares of `x` and of `y` are, by exclusive or, the AND.
  pub and_local-xor :
      IsXorSharing k s x
      → IsXorSharing k t y
      → bit_xor (bit_xor (and_local s.p0 t.p0) (and_local s.p1 t.p1)) (and_local s.p2 t.p2)
        ≡ bit_and x y
  unfolding and_local
  and_local-xor hs ht =
      rw (← hs.value, ← ht.value, hs.b0, hs.b1, hs.b2, ht.b0, ht.b1, ht.b2)
        (product_three s.p0.a s.p1.a s.p2.a t.p0.a t.p1.a t.p2.a)

and_local-lt :
    (k : ℕ) (u v : Share)
    → u.a < 2 ^ k
    → u.b < 2 ^ k
    → v.a < 2 ^ k
    → v.b < 2 ^ k
    → and_local u v < 2 ^ k
unfolding and_local
and_local-lt k u v p q r s =
    bit_xor-lt k _ _ (bit_xor-lt k _ _ (bit_and-lt k _ _ p r) (bit_and-lt k _ _ q r))
      (bit_and-lt k _ _ p s)

module _ (k : ℕ) {s : Trio Share} {x : ℕ} where
  -- Binary shares of `x` masked by a public word of the width are binary shares of the masked word.
  and-IsXorSharing :
      (c : ℕ)
      → c < 2 ^ k
      → IsXorSharing k s x
      → IsXorSharing k (map_trio (λ u. and u c) s) (bit_and x c)
  unfolding and
  and-IsXorSharing c h hs = record {
    replicated = record {
      b0 = rw hs.b0;
      b1 = rw hs.b1;
      b2 = rw hs.b2;
      lt0 = bit_and-lt k _ _ hs.lt0 h;
      lt1 = bit_and-lt k _ _ hs.lt1 h;
      lt2 = bit_and-lt k _ _ hs.lt2 h;
    };
    value = rw (← hs.value) (and_three s.p0.a s.p1.a s.p2.a c);
  }

-- Zero sharings: each mask is the exclusive or of a word and the previous party's word.
pub zero_three :
    (z0 z1 z2 r0 r1 r2 : ℕ)
    → bit_xor
        (bit_xor (bit_xor z0 (bit_xor r0 r2)) (bit_xor z1 (bit_xor r1 r0)))
        (bit_xor z2 (bit_xor r2 r1))
      ≡ bit_xor (bit_xor z0 z1) z2
zero_three z0 z1 z2 r0 r1 r2 = bit_at-ext _ _ λ i.
    simp bits (
      bool_zero (bit_at z0 i) (bit_at z1 i) (bit_at z2 i) (bit_at r0 i) (bit_at r1 i) (bit_at r2 i))

bool_rotate : (a b c : Bool) → bool_xor (bool_xor a c) b ≡ bool_xor (bool_xor a b) c
bool_rotate a b c = ground arith

bool_turn : (a b c : Bool) → bool_xor (bool_xor b a) c ≡ bool_xor (bool_xor a b) c
bool_turn a b c = ground arith

xor_rotate : (a b c : ℕ) → bit_xor (bit_xor a c) b ≡ bit_xor (bit_xor a b) c
xor_rotate a b c =
    bit_at-ext _ _ λ i. simp bits (bool_rotate (bit_at a i) (bit_at b i) (bit_at c i))

xor_turn : (a b c : ℕ) → bit_xor (bit_xor b a) c ≡ bit_xor (bit_xor a b) c
xor_turn a b c = bit_at-ext _ _ λ i. simp bits (bool_turn (bit_at a i) (bit_at b i) (bit_at c i))

-- A party's two components and the previous party's second one give the shared word.
pub opened :
    (k : ℕ) (t : Trio Share) (x : ℕ)
    → IsXorSharing k t x
    → (bit_xor (bit_xor t.p0.a t.p0.b) t.p2.b ≡ x)
      × (bit_xor (bit_xor t.p1.a t.p1.b) t.p0.b ≡ x)
      × (bit_xor (bit_xor t.p2.a t.p2.b) t.p1.b ≡ x)
opened k t x h = (
  rw (h.b0, h.b2) (xor_rotate t.p0.a t.p1.a t.p2.a ∙ h.value),
  rw (h.b1, h.b0) (xor_turn t.p0.a t.p1.a t.p2.a ∙ h.value),
  rw (h.b2, h.b1)
      (xor_rotate t.p2.a t.p0.a t.p1.a
        ∙ xor_turn t.p0.a t.p2.a t.p1.a
        ∙ xor_rotate t.p0.a t.p1.a t.p2.a
        ∙ h.value),
)

-- The local ANDs of binary shares stay within the width.
pub and_local-lt_three :
    (k : ℕ) {s t : Trio Share} {x y : ℕ}
    → IsXorSharing k s x
    → IsXorSharing k t y
    → (and_local s.p0 t.p0 < 2 ^ k) × (and_local s.p1 t.p1 < 2 ^ k) × (and_local s.p2 t.p2 < 2 ^ k)
and_local-lt_three k {s} {t} h g = (
  and_local-lt k s.p0 t.p0 h.lt0 (rw h.b0 h.lt2) g.lt0 (rw g.b0 g.lt2),
  and_local-lt k s.p1 t.p1 h.lt1 (rw h.b1 h.lt0) g.lt1 (rw g.b1 g.lt0),
  and_local-lt k s.p2 t.p2 h.lt2 (rw h.b2 h.lt1) g.lt2 (rw g.b2 g.lt1),
)
