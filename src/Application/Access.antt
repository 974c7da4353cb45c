-- ===== src/Application/Access.antt =====
-- Who may do what with an application, and what it takes to be shown as running.
use lean_fm.Common.{
  ap, sym, ◌∙◌, String, ◌≡◌, ◌≢◌, refl, Bool, true, false, not, ◌&&◌, ◌||◌, Option, none, some,
  List, arith, if◌then◌else◌, ◌==◌, eq_iff, is_empty, get_or,
}
use lean_fm.Application.Types.{
  State, starting, running, stopped, failed, stale, Record, World, View, Answer, ok, refused,
  other_owner, other_owner_runs, instance_changed, invalid_capability, stopped_or_stale, Output,
  start, status, stop, open_preview, Payload,
}
use lean_fm.Application.Lifecycle.{
  is_running, observed_state, view, look, admit, wait, stop_record, new_record, max_live, open_url,
}
use lean_fm.Application.Lifecycle
use lean_fm.Application.Commands.{proxy_request, command}

owner-differs : (owner given : String) → owner ≢ given → (owner == given) ≡ false
owner-differs owner given h = ground (arith, eq_iff owner given)

abbrev pub is_refused : Answer Output → Bool
is_refused (ok _) = false
is_refused (refused _) = true

-- No signed-in caller but its owner can start, inspect, stop or open the live application of a
-- project: each of these commands is refused and leaves the record as it was.
pub other_owner_refused :
    (w : World) (p : Payload) (r : Record) (reads : List (Option Record))
    → r.owner ≢ p.owner
    → is_empty p.owner ≡ false
    → w.alive r ≡ true
    → (command w start p (some r) reads ≡ (refused other_owner_runs, some r))
      × (command w status p (some r) reads ≡ (refused other_owner, some r))
      × (command w stop p (some r) reads ≡ (refused other_owner, some r))
      × (command w open_preview p (some r) reads ≡ (refused other_owner, some r))
unfolding command Lifecycle.start Lifecycle.status Lifecycle.stop
other_owner_refused w p r reads differs signed live =
    let d = owner-differs r.owner p.owner differs in
    (rw (signed, d, live) refl, rw (signed, d) refl, rw (signed, d) refl, rw (signed, d) refl)

observed-running :
    (s : State) (lives same healthy : Bool)
    → (if Lifecycle.needs_process s && not lives
        then failed
        else if is_running s
        then (if not same then stale else if healthy then running else failed)
        else s)
      ≡ running
    → (s ≡ running) × (lives ≡ true) × (same ≡ true) × (healthy ≡ true)
observed-running s lives same healthy e = ground arith

status-ok :
    (same : Bool) (shown v : View)
    → (if not same then refused other_owner else ok shown) ≡ ok v
    → (same ≡ true) × (shown ≡ v)
status-ok same shown v e = ground arith

shown-running :
    (s : State) (url : String) → is_empty (if is_running s then url else "") ≡ false → s ≡ running
shown-running running url h = refl
shown-running starting url h = absurd cc
shown-running stopped url h = absurd cc
shown-running failed url h = absurd cc
shown-running stale url h = absurd cc

-- A record is shown as running only to its owner, while its process lives, its sources are the
-- current ones and it answers; only then does the answer hold an address.
pub running_requires :
    (w : World) (owner project : String) (r : Record) (v : View)
    → Lifecycle.status w owner project (some r) ≡ ok v
    → is_empty v.url ≡ false
    → (r.owner ≡ owner)
      × (v.state ≡ running)
      × (r.state ≡ running)
      × (w.alive r ≡ true)
      × (w.healthy r ≡ true)
      × (r.revision ≡ w.revision)
unfolding Lifecycle.status
running_requires w owner project r v e shown =
    let (mine, same) = status-ok (r.owner == owner) (view w project r) v e in
    let url = ap (λ (x : View). is_empty x.url) same ∙ shown in
    let now = shown-running (observed_state w r) (open_url project) url in
    let (state, lives, current, healthy) =
      observed-running r.state (w.alive r) (r.revision == w.revision) (w.healthy r) now in
    (
      (eq_iff r.owner owner).0 mine,
      sym (ap (λ (x : View). x.state) same) ∙ now,
      state,
      lives,
      healthy,
      (eq_iff r.revision w.revision).0 current,
    )

module _ (w : World) (p : Payload) (r : Record) (o : Output) where
  passed-all :
      (a b c d e : Bool) (x : Answer Output)
      → (if not a || not b
          then refused invalid_capability
          else if not c || not d || not e
          then refused stopped_or_stale
          else x)
        ≡ ok o
      → (a ≡ true) × (b ≡ true) × (c ≡ true) × (d ≡ true) × (e ≡ true)
  passed-all a b c d e x h = ground arith

  running-eq : (s : State) → is_running s ≡ true → s ≡ running
  running-eq s h = ground arith

  proxy-parts :
      proxy_request w p (some r) ≡ ok o
      → (p.capability ≡ get_or r.capability "")
        × (p.instance_id ≡ r.instance_id)
        × (r.state ≡ running)
        × (w.alive r ≡ true)
        × (r.revision ≡ w.revision)
  unfolding proxy_request
  proxy-parts h =
      let (capable, named, runs, lives, current) =
        passed-all (p.capability == get_or r.capability "") (p.instance_id == r.instance_id)
          (is_running r.state) (w.alive r) (w.revision == r.revision) _ h in
      (
        (eq_iff p.capability (get_or r.capability "")).0 capable,
        (eq_iff p.instance_id r.instance_id).0 named,
        running-eq r.state runs,
        lives,
        sym ((eq_iff w.revision r.revision).0 current),
      )

-- The preview of an application answers only a request that holds the instance's name and
-- capability, and only while the instance runs the current sources.
pub proxy_requires :
    (w : World) (p : Payload) (file : Option Record) (o : Output)
    → proxy_request w p file ≡ ok o
    → (r : Record) × (file ≡ some r)
      × (p.capability ≡ get_or r.capability "")
      × (p.instance_id ≡ r.instance_id)
      × (r.state ≡ running)
      × (w.alive r ≡ true)
      × (r.revision ≡ w.revision)
unfolding proxy_request
proxy_requires w p none o h = absurd cc
proxy_requires w p (some r) o h =
    let (capable, named, runs, lives, current) = proxy-parts w p r o h in
    (r, refl, capable, named, runs, lives, current)

pub stop-ok :
    (a b : Bool) (r : Record) (file : Option Record) (k killed : Option String)
    → ◌≡◌ {A = Lifecycle.Stopped}
        (if a
          then (refused other_owner, some r, none)
          else if b
          then (refused instance_changed, some r, none)
          else (ok tt, some (stop_record r), k))
        (ok tt, file, killed)
    → (file ≡ some (stop_record r)) × (k ≡ killed)
stop-ok a b r file k killed e = ground arith

-- After a `stop` that returns, no request passes the preview of that record, whatever it holds.
pub stop_ends_preview :
    (w : World) (owner instance : String) (p : Payload) (r : Record) (file : Option Record)
    (killed : Option String) (o : Output)
    → Lifecycle.stop w owner instance (some r) ≡ (ok tt, file, killed)
    → proxy_request w p file ≢ ok o
unfolding Lifecycle.stop
stop_ends_preview w owner instance p r file killed o e passed =
    let (left, same) =
      stop-ok (not (r.owner == owner)) (not (is_empty instance) && not (instance == r.instance_id))
        r file _ killed e in
    let runs = (proxy-parts w p (stop_record r) o (ap (proxy_request w p) (sym left) ∙ passed)).2 in
    cc
