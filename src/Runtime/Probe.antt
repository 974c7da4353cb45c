-- ===== src/Runtime/Probe.antt =====
-- `probe`: readiness, the page, the sockets, and that the application still runs.
use lean_fm.Common.{
  ℕ, ◌*◌, String, Bool, not, ◌&&◌, List, [], ◌∷◌, leb, eqb, if◌then◌else◌, ◌==◌, all,
}

-- One turn of the readiness loop: the application ended, did not answer (an `OSError` or a
-- `URLError`, as of an error status), or answered.
pub data Poll : Type 0 where
  exited silent : Poll
  answered : (status bytes : ℕ) → Poll

pub record Page : Type 0 where
  pub status : ℕ
  pub bytes : ℕ

-- A listening socket of /proc/net/tcp or tcp6.
pub record Socket : Type 0 where
  pub address : String
  pub port : ℕ

pub data Outcome : Type 0 where
  validated exited_early bad_readiness deadline bad_page other_socket exited_late : Outcome

abbrev pub is_page : Page → Bool
is_page p = eqb p.status 200 && not (eqb p.bytes 0) && leb p.bytes (1024 * 1024)

abbrev pub is_own : ℕ → Socket → Bool
is_own port s = eqb s.port port && s.address == "0100007F"

-- The checks after the loop.
unfoldable pub finish : ℕ → Page → List Socket → Bool → Outcome
finish port page sockets runs =
    if not (is_page page)
    then bad_page
    else if not (all (is_own port) sockets)
    then other_socket
    else if not runs
    then exited_late
    else validated

-- The loop, over the turns until the deadline.
unfoldable pub poll : Outcome → List Poll → Outcome
poll after [] = deadline
poll after (exited ∷ rest) = exited_early
poll after (silent ∷ rest) = poll after rest
poll after (answered status bytes ∷ rest) =
    if eqb status 200 && leb bytes 65536 then after else bad_readiness

unfoldable pub probe : ℕ → List Poll → Page → List Socket → Bool → Outcome
unfolding finish poll
probe port turns page sockets runs = poll (finish port page sockets runs) turns
