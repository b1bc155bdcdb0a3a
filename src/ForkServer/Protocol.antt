-- ===== src/ForkServer/Protocol.antt =====
-- The client's side of the protocol as a specification, and `StartForkServer` against it: the
-- server obeys the commands in order, however the pipe cuts their bytes.
pub mod Obeys
pub mod Serves
pub mod Start
use fuzzuf_cc.Prelude.{
  ℕ, zero, suc, ◌+◌, ◌-◌, ◌^◌, ◌≤◌, ◌<◌, ◌≡◌, ◌⊎◌, Bool, true, false, List, [], ◌∷◌, ◌++◌, arith,
  length,
}
use fuzzuf_cc.Bytes.{to_bytes}
use fuzzuf_cc.ForkServer.Types.{RuntimeSettings}

-- What a client asks for. `other` is any command word that the server does not know.
pub data Request : Type 0 where
  set_timeout : ℕ → Request
  read_stdin save_stdout_stderr execute : Request
  other : ℕ → Request

-- The bytes of a request, as benchmark_client.cc sends them.
abbrev pub encode : Request → List ℕ
encode (set_timeout us) = to_bytes 4 1 ++ to_bytes 8 us
encode read_stdin = to_bytes 4 2
encode save_stdout_stderr = to_bytes 4 3
encode execute = to_bytes 4 4
encode (other n) = to_bytes 4 n

abbrev pub encode_all : List Request → List ℕ
encode_all [] = []
encode_all (r ∷ rs) = encode r ++ encode_all rs

-- The values fit their fields, and an unknown command is none of the known ones.
abbrev pub IsProper : Request → Type 0
IsProper (set_timeout us) = us < 2 ^ 64
IsProper (other n) = (n ≡ 0) ⊎ ((5 ≤ n) × (n < 2 ^ 32))
IsProper _ = Unit

abbrev pub AllProper : List Request → Type 0
AllProper [] = Unit
AllProper (r ∷ rs) = IsProper r × AllProper rs

-- What a request does to the settings, and how many responses it gets.
abbrev pub apply : RuntimeSettings → Request → RuntimeSettings
apply s (set_timeout us) = record s { timeout_us = us }
apply s read_stdin = record s { read_stdin = true }
apply s save_stdout_stderr = record s { save_stdout_stderr = true }
apply s execute = s
apply s (other n) = s

abbrev pub executions : List Request → ℕ
executions [] = 0
executions (execute ∷ rs) = suc (executions rs)
executions (_ ∷ rs) = executions rs
