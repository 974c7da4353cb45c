-- ===== src/Runtime/Evidence.antt =====
-- What a contract, a status and a probe that pass have established.
use lean_fm.Common.{
  ℕ, ◌*◌, ◌≤◌, ◌<◌, ◌≡◌, ◌≢◌, refl, sym, ap, ◌∙◌, Bool, true, not, ◌&&◌, ◌||◌, Option, none, some,
  List, [], ◌∷◌, leb, eqb, if◌then◌else◌, eq_iff, eqb_iff, ◌==◌, All, all, arith,
}
use lean_fm.Runtime.Contract.{
  Value, World, Result, ok, failed, not_fixed, bad_port, bad_path, no_memory, no_makefile,
  no_runtime, Receipt, is_within, is_fixed, is_port, is_probe_path, contract, is_valid, status,
}
use lean_fm.Runtime.Probe.{
  Poll, exited, silent, answered, Page, Socket, Outcome, validated, bad_readiness, bad_page,
  other_socket, exited_late, is_page, is_own, finish, poll, probe,
}

passed :
    (a b c d e f g : Bool) (x v : Value)
    → (if not a
        then failed no_runtime
        else if not b
        then failed not_fixed
        else if not c
        then failed bad_port
        else if not d || not e
        then failed bad_path
        else if not f
        then failed no_memory
        else if not g
        then failed no_makefile
        else ok x)
      ≡ ok v
    → (b ≡ true) × (c ≡ true) × (d ≡ true) × (e ≡ true) × (x ≡ v)
passed a b c d e f g x v h = ground arith

port-bounds :
    (reserved : ℕ) (o : Option ℕ)
    → is_port reserved o ≡ true
    → (port : ℕ) × (o ≡ some port)
      × (1024 ≤ port)
      × (port ≤ 65535)
      × (port ≢ 8080)
      × (port ≢ reserved)
port-bounds reserved none h = absurd cc
port-bounds reserved (some port) h =
    (port, refl, ground arith, ground arith, ground arith, ground arith)

-- A contract that is accepted names fixed loopback HTTP, a port from 1024 to 65535 that is neither
-- 8080 nor LeanFM's own, and two probe paths below the application's root.
pub contract_requires :
    (w : World) (v : Value)
    → contract w ≡ ok v
    → (is_fixed v ≡ true)
      × (is_probe_path v.readiness_path ≡ true)
      × (is_probe_path v.page_path ≡ true)
      × (port : ℕ) × (v.port ≡ some port)
      × (1024 ≤ port)
      × (port ≤ 65535)
      × (port ≢ 8080)
      × (port ≢ w.reserved_port)
unfolding contract
contract_requires w v h =
    let x = w.runtime_value in
    let (fixed, port, ready, page, same) =
      passed (is_within 16384 w.runtime_size) (is_fixed x) (is_port w.reserved_port x.port)
        (is_probe_path x.readiness_path) (is_probe_path x.page_path)
        (is_within 65536 w.memory_size && w.memory_has_text) (is_within 2_000_000 w.makefile_size) x
        v h in
    let (number, named, low, high, other, own) = port-bounds w.reserved_port x.port port in
    (
      ap is_fixed (sym same) ∙ fixed,
      ap (λ (y : Value). is_probe_path y.readiness_path) (sym same) ∙ ready,
      ap (λ (y : Value). is_probe_path y.page_path) (sym same) ∙ page,
      number,
      ap (λ (y : Value). y.port) (sym same) ∙ named,
      low,
      high,
      other,
      own,
    )

-- Evidence counts as valid only for the present revision of the inputs, with a contract that is
-- still accepted.
pub status_requires :
    (w : World) (receipt : Receipt)
    → status w (some receipt) ≡ true
    → (receipt.status ≡ "validated")
      × (receipt.revision ≡ w.revision)
      × (v : Value) × (contract w ≡ ok v)
unfolding status
status_requires w receipt h = current (contract w) refl h
  where
    current :
        (r : Result Value)
        → contract w ≡ r
        → is_valid w (some receipt) r ≡ true
        → (receipt.status ≡ "validated")
          × (receipt.revision ≡ w.revision)
          × (v : Value) × (contract w ≡ ok v)
    current (failed why) e h = absurd cc
    current (ok v) e h = (
      ground (arith, eq_iff receipt.status "validated"),
      ground (arith, eq_iff receipt.revision w.revision),
      v,
      e,
    )

finish-validated :
    (port : ℕ) (page : Page) (sockets : List Socket) (runs : Bool)
    → finish port page sockets runs ≡ validated
    → (is_page page ≡ true) × (all (is_own port) sockets ≡ true) × (runs ≡ true)
unfolding finish
finish-validated port page sockets runs h = checks (is_page page) (all (is_own port) sockets) runs h
  where
    checks :
        (a b c : Bool)
        → (if not a
            then bad_page
            else if not b
            then other_socket
            else if not c
            then exited_late
            else validated)
          ≡ validated
        → (a ≡ true) × (b ≡ true) × (c ≡ true)
    checks a b c h = ground arith

-- Answered after some silent turns, with status 200 and a bounded body.
abbrev pub IsReady : List Poll → Type 0
IsReady [] = ⊥
IsReady (exited ∷ rest) = ⊥
IsReady (silent ∷ rest) = IsReady rest
IsReady (answered code bytes ∷ rest) = (code ≡ 200) × (bytes ≤ 65536)

poll-IsReady :
    (after : Outcome) (turns : List Poll)
    → poll after turns ≡ validated
    → IsReady turns × (after ≡ validated)
unfolding poll
poll-IsReady after [] h = absurd cc
poll-IsReady after (exited ∷ rest) h = absurd cc
poll-IsReady after (silent ∷ rest) h = poll-IsReady after rest h
poll-IsReady after (answered code bytes ∷ rest) h =
    let (good, small, same) = answer (eqb code 200) (leb bytes 65536) refl refl h in
    ((good, small), same)
  where
    answer :
        (a b : Bool)
        → eqb code 200 ≡ a
        → leb bytes 65536 ≡ b
        → (if a && b then after else bad_readiness) ≡ validated
        → (code ≡ 200) × (bytes ≤ 65536) × (after ≡ validated)
    answer a b x y h = ground arith

-- A socket of the port that listens on 127.0.0.1 alone, as the kernel's table writes that address.
abbrev pub IsLoopback : ℕ → Socket → Type 0
IsLoopback port s = (s.port ≡ port) × (s.address ≡ "0100007F")

own-IsLoopback :
    (port : ℕ) (sockets : List Socket)
    → all (is_own port) sockets ≡ true
    → All (IsLoopback port) sockets
own-IsLoopback port [] h = tt
own-IsLoopback port (s ∷ sockets) h =
    let (own, others) = both_lem (is_own port s) (all (is_own port) sockets) h in
    let (number, loopback) = both_lem (eqb s.port port) (s.address == "0100007F") own in
    (
      ((eqb_iff s.port port).0 number, (eq_iff s.address "0100007F").0 loopback),
      own-IsLoopback port sockets others,
    )
  where
    both_lem : (a b : Bool) → (a && b) ≡ true → (a ≡ true) × (b ≡ true)
    both_lem a b e = ground arith

-- A probe validates only an application that answered before it ended, with status 200 and a
-- bounded body, served a page of status 200 that is neither empty nor over one MiB, has no listening
-- socket but those of its declared port on 127.0.0.1, and runs on.
pub probe_requires :
    (port : ℕ) (turns : List Poll) (page : Page) (sockets : List Socket) (runs : Bool)
    → probe port turns page sockets runs ≡ validated
    → IsReady turns
      × (page.status ≡ 200)
      × (0 < page.bytes)
      × (page.bytes ≤ 1024 * 1024)
      × All (IsLoopback port) sockets
      × (runs ≡ true)
unfolding probe
probe_requires port turns page sockets runs h =
    let (ready, rest) = poll-IsReady (finish port page sockets runs) turns h in
    let (served, own, lives) = finish-validated port page sockets runs rest in
    (ready, ground arith, ground arith, ground arith, own-IsLoopback port sockets own, lives)
