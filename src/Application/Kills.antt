-- ===== src/Application/Kills.antt =====
-- Which supervisor `start` and `stop` kill.
use lean_fm.Common.{
  String, Bool, true, false, not, Option, none, some, [], ◌≡◌, refl, sym, ap, ◌∙◌, ◌==◌,
  if◌then◌else◌, any, arith, eq_refl, ◌&&◌, is_empty,
}
use lean_fm.Application.Types.{Record, World, ok, refused, other_owner}
use lean_fm.Application.Lifecycle.{
  look, stop, free, freed, denied, is_running, view, Stopped, stop_record, observed_state,
}
use lean_fm.Application.Lifecycle
use lean_fm.Application.Access.{stop-ok}
use lean_fm.Application.System.{System, is_alive}

-- What a `start` that goes on, and a `stop` that returns, have killed of a live instance.
freed-killed :
    (w : World) (owner : String) (r : Record) (left : Option Record) (killed : Option String)
    → w.alive r ≡ true
    → freed (stop w owner "" (some r)) ≡ free left killed
    → killed ≡ some r.instance_id
unfolding stop
freed-killed w owner r left killed live e = go (not (r.owner == owner)) (w.alive r) live e
  where
    go :
        (a b : Bool)
        → b ≡ true
        → freed (
            if a
            then (refused other_owner, some r, none)
            else (ok tt, some (stop_record r), if b then some r.instance_id else none))
          ≡ free left killed
        → killed ≡ some r.instance_id
    go a b h e = ground arith

pub look-killed :
    (w : World) (owner project : String) (r : Record) (left : Option Record)
    (killed : Option String)
    → w.alive r ≡ true
    → look w owner project (some r) ≡ free left killed
    → killed ≡ some r.instance_id
unfolding look
look-killed w owner project r left killed live e = freed-killed w owner r left killed live (
    live_lem (not (r.owner == owner) && w.alive r) (is_running (observed_state w r)) (w.alive r)
      live e)
  where
    live_lem :
        (a b c : Bool)
        → c ≡ true
        → (if a
            then denied
            else if b
            then Lifecycle.runs (view w project r)
            else if c
            then freed (stop w owner "" (some r))
            else free (some r) none)
          ≡ free left killed
        → freed (stop w owner "" (some r)) ≡ free left killed
    live_lem a b c h e = ground arith

pub stop-killed :
    (w : World) (owner instance : String) (r : Record) (left : Option Record)
    (killed : Option String)
    → w.alive r ≡ true
    → stop w owner instance (some r) ≡ (ok tt, left, killed)
    → killed ≡ some r.instance_id
unfolding stop
stop-killed w owner instance r left killed live e =
    let (file, same) =
      stop-ok (not (r.owner == owner)) (not (is_empty instance) && not (instance == r.instance_id))
        r left _ killed e in
    sym same ∙ ap (λ b. if b then some r.instance_id else none) live

pub owner-stop :
    (w : World) (r : Record)
    → stop w r.owner "" (some r)
      ≡ (ok tt, some (stop_record r), if w.alive r then some r.instance_id else none)
unfolding stop
owner-stop w r = rw (eq_refl r.owner) refl

pub alive_nobody : (s : System) (r : Record) → s.supervisors ≡ [] → is_alive s r ≡ false
unfolding is_alive
alive_nobody s r e = ap (any (λ d. r.instance_id == d.instance_id)) e

pub look_dead :
    (w : World) (owner project : String) (r : Record)
    → w.alive r ≡ false
    → look w owner project (some r) ≡ free (some r) none
unfolding look observed_state
look_dead w owner project r dead = ground (arith, dead)
