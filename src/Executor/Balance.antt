-- ===== src/Executor/Balance.antt =====
-- The descriptors that the client opens and closes.
pub mod Tidy
pub mod Constructed
pub mod Destroyed
use fuzzuf_cc.Prelude.{
  ◌==◌, if◌then◌else◌, ℕ, ◌+◌, ◌≡◌, Bool, true, false, some, none, [], ◌∷◌, arith,
}
use fuzzuf_cc.Executor.Types.{
  Trace, Client, Pipe, Fd, Failure, pipe_call, open_call, epoll_create_call, close_call,
}
use fuzzuf_cc.Executor.Effect.{
  Cpp, Outcome, done, thrown, terminated, execed, out_of_fuel, and_then, throw_if,
}

-- A descriptor counts when it is `x`.
unfoldable pub hit : (x fd : ℕ) → ℕ
hit x fd = if fd == x then 1 else 0

-- How often pipe, open and epoll_create gave the descriptor `x`, and how often it was closed.
abbrev pub opened : ℕ → Trace → ℕ
opened x [] = 0
opened x (pipe_call (some (r, w)) ∷ t) = hit x r + hit x w + opened x t
opened x (open_call i (some fd) ∷ t) = hit x fd + opened x t
opened x (epoll_create_call (some fd) ∷ t) = hit x fd + opened x t
opened x (_ ∷ t) = opened x t

abbrev pub closings : ℕ → Trace → ℕ
closings x [] = 0
closings x (close_call (some fd) ∷ t) = hit x fd + closings x t
closings x (_ ∷ t) = closings x t

abbrev pub count : ℕ → Fd → ℕ
count x none = 0
count x (some fd) = hit x fd

abbrev pub ends : ℕ → Pipe → ℕ
ends x p = count x p.read_end + count x p.write_end

abbrev pub held : ℕ → Client → ℕ
held x c =
    ends x c.to_fork_server
    + ends x c.from_fork_server
    + ends x c.target_stdout
    + ends x c.target_stderr
    + count x c.target_stdin_fd
    + count x c.epoll_fd

-- As often as the descriptor `x` was opened, it is closed or a member.
abbrev pub IsBalanced : ℕ → Client → Type 0
IsBalanced x c = opened x c.trace ≡ closings x c.trace + held x c

-- The member is -1, if it is asked to be.
abbrev pub Unset : Bool → Fd → Type 0
Unset true fd = fd ≡ none
Unset false fd = Unit

pub record Inv (x : ℕ) (no_stdin no_epoll : Bool) (c : Client) : Type 0 where
  pub balanced : IsBalanced x c
  pub stdin_unset : Unset no_stdin c.target_stdin_fd
  pub epoll_unset : Unset no_epoll c.epoll_fd

-- `P` holds when the run is done, and `Q` when it throws.
abbrev pub Ends : {A : Type 0} → Outcome A → (Client → Type 0) → (Client → Type 0) → Type 0
Ends (done a c) P Q = P c
Ends (thrown f c) P Q = Q c
Ends (terminated c) P Q = Unit
Ends (execed c) P Q = Unit
Ends (out_of_fuel c) P Q = Unit

pub Ends-and_then :
    {A B : Type 0} (r : Outcome A) (k : A → Cpp B) (P P' Q : Client → Type 0)
    → Ends r P Q
    → ((a : A) (c : Client) → P c → Ends (k a c) P' Q)
    → Ends (and_then r k) P' Q
Ends-and_then (done a c) k P P' Q h next = next a c h
Ends-and_then (thrown f c) k P P' Q h next = h
Ends-and_then (terminated c) k P P' Q h next = tt
Ends-and_then (execed c) k P P' Q h next = tt
Ends-and_then (out_of_fuel c) k P P' Q h next = tt

pub Ends_mono :
    {A : Type 0} (r : Outcome A) (P P' Q Q' : Client → Type 0)
    → ((c : Client) → P c → P' c)
    → ((c : Client) → Q c → Q' c)
    → Ends r P Q
    → Ends r P' Q'
Ends_mono (done a c) P P' Q Q' f g h = f c h
Ends_mono (thrown e c) P P' Q Q' f g h = g c h
Ends_mono (terminated c) P P' Q Q' f g h = tt
Ends_mono (execed c) P P' Q Q' f g h = tt
Ends_mono (out_of_fuel c) P P' Q Q' f g h = tt

pub Ends-throw_if :
    (b : Bool) (f : Failure) (c : Client) (P Q : Client → Type 0)
    → P c
    → Q c
    → Ends (throw_if b f c) P Q
Ends-throw_if true f c P Q h k = k
Ends-throw_if false f c P Q h k = h
