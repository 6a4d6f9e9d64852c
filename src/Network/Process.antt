-- ===== src/Network/Process.antt =====
-- What a party's asynchronous code does on the network. A process ends with its result (`none` is an
-- error), offers bytes to a receiver, or waits for bytes of a sender; it goes on with what the
-- network answered. `B` are the bytes, `R` the results.
use iris_mpc.Prelude.{Bool, Option}
use iris_mpc.Execution.Role.{Identity}

pub data Process (B R : Type 0) : Type 0 where
  done : Option R → Process B R
  send : Identity → B → (Bool → Process B R) → Process B R
  receive : Identity → (Option B → Process B R) → Process B R
