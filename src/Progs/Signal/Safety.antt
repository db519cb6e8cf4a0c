-- ===== src/Progs/Signal/Safety.antt =====
-- `mysignalpidfile` signals no process group and not init.
use ipcop_alpine.Prelude.{ℕ, ◌≡◌, ◌<◌, ◌^◌, Bool, false, ◌||◌, ◌==◌, leb, [], All, arith}
use ipcop_alpine.Cstring.{Bytes}
use ipcop_alpine.Os.{Os, Call, kill, history_of, choose, pure, call, ◌>>=◌, minus_one}
use ipcop_alpine.Os.Trace.{
  Keeps, keeps, Keeps-choose-false, Keeps-bind, Keeps-call, Keeps-pure, Keeps-choose,
}
use ipcop_alpine.Kv.{success, failure}
use ipcop_alpine.Number.{is_negative}
use ipcop_alpine.Progs.Signal.{mysignalpidfile}

-- A process identifier above 1, as a positive `int`.
abbrev pub KillsProcess : Call → Type 0
KillsProcess (kill pid signal) = (1 < pid) × (pid < 2 ^ 31)
KillsProcess _ = Unit

accepted_pid :
    (e : Bool) (pid : ℕ)
    → (e || (is_negative pid || leb pid 1)) ≡ false
    → (1 < pid) × (pid < 2 ^ 31)
accepted_pid e pid h = (ground arith, ground arith)

send-Keeps :
    (os : Os) (e : Bool) (pid signal : ℕ)
    → Keeps KillsProcess (
        choose (e || (is_negative pid || leb pid 1)) (pure failure) do
          sent ← call os (kill pid signal)
          choose (sent == minus_one) (pure failure) (pure success))
send-Keeps os e pid signal = Keeps-choose-false _ (Keeps-pure failure) λ h.
    Keeps-bind (Keeps-call os (kill pid signal) (accepted_pid e pid h))
      (λ sent. Keeps-choose _ (Keeps-pure failure) (Keeps-pure success))

mysignalpidfile-Keeps :
    (os : Os) (file : Bytes) (signal : ℕ) → Keeps KillsProcess (mysignalpidfile os file signal)
unfolding mysignalpidfile
mysignalpidfile-Keeps os file signal = search (keeps, send-Keeps) depth 20

-- Whatever the file holds and the system answers, each call of `kill` is for a process identifier
-- above 1 that is positive as an `int`.
pub mysignalpidfile-KillsProcess :
    (os : Os) (file : Bytes) (signal : ℕ)
    → All KillsProcess (history_of (mysignalpidfile os file signal []))
mysignalpidfile-KillsProcess os file signal = (mysignalpidfile-Keeps os file signal).kept [] tt
