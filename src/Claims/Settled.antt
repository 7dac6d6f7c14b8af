-- ===== src/Claims/Settled.antt =====
-- Adoptions and releases (pkg/controller/control/controller_ref_manager.go) return when nothing panics.
use kubecluster.Prelude.{String, List, Option, none, some, ◌≡◌, ◌≢◌, refl, arith}
use kubecluster.Errors.{Result, ok, err, panic}
use kubecluster.World.{Call, Env, State, M, ◌>>=◌, pure, raise, try}
use kubecluster.Claims.{
  Manager, AdoptOnce, Meta, can_adopt, adopt_if, delete_owner_ref_patch, adopt_object,
  release_object, ignore_gone,
}

-- The API server and the caller's check do not panic.
pub record IsCalm (env : Env) (m : Manager) : Type 0 where
  pub replies : (calls : List Call) (call : Call) → env.reply calls call ≢ panic
  pub checks : (f : M (Unit {0})) (s : State) → m.can_adopt_func ≡ some f → (f s).0 ≢ panic

-- `p` is a value that is no panic, with what it is paired with.
pub record Settles {A B : Type 0} (p : Result (Result A × B) × State) : Type 0 where
  pub outcome : Result A
  pub other : B
  pub later : State
  pub returned : p ≡ (ok (outcome, other), later)
  pub calm : outcome ≢ panic

module _ {A : Type 0} where
  -- What `try` hands on.
  record Tries (m : M A) (s : State) : Type 0 where
    outcome : Result A
    later : State
    returned : try m s ≡ (ok outcome, later)
    calm : outcome ≢ panic

  try_lem : (m : M A) (s : State) → (m s).0 ≢ panic → Tries m s
  unfolding try
  try_lem m s h = tried (m s) refl
    where
      tried : (p : Result A × State) → m s ≡ p → Tries m s
      tried (ok a, s') e = record {
        outcome = ok a;
        later = s';
        returned = rw e refl;
        calm = λ n. cc;
      }
      tried (err a, s') e = record {
        outcome = err a;
        later = s';
        returned = rw e refl;
        calm = λ n. cc;
      }
      tried (panic, s') e = ground arith

-- What `CanAdopt` leaves.
record Asked (m : Manager) (once : AdoptOnce) (s : State) : Type 0 where
  then_once : AdoptOnce
  later : State
  returned : can_adopt m once s ≡ (ok then_once, later)

module _ (env : Env) (m : Manager) (calm : IsCalm env m) where
  can_adopt_lem : (once : AdoptOnce) (s : State) → Asked m once s
  unfolding ◌>>=◌ pure
  can_adopt_lem (AdoptOnce.done r) s = record {
    then_once = AdoptOnce.done r;
    later = s;
    returned = refl;
  }
  can_adopt_lem AdoptOnce.fresh s = asked m.can_adopt_func refl
    where
      asked : (f : Option (M (Unit {0}))) → m.can_adopt_func ≡ f → Asked m AdoptOnce.fresh s
      asked none e = record { then_once = AdoptOnce.done (ok tt); later = s; returned = rw e refl }
      asked (some f) e =
          let tries = try_lem f s (calm.checks f s e) in
          record {
            then_once = AdoptOnce.done tries.outcome;
            later = tries.later;
            returned = rw (e, tries.returned) refl;
          }

  module _ (patch : String → String → String → M (Unit {0}))
      (patches : (namespace name text : String) (s : State)
        → (patch namespace name text s).0 ≢ panic) where
    adopt_if-calm :
        (obj : Meta) (once : AdoptOnce) (s : State) → (adopt_if m patch obj once s).0 ≢ panic
    unfolding raise adopt_if
    adopt_if-calm obj AdoptOnce.fresh s = patches _ _ _ s
    adopt_if-calm obj (AdoptOnce.done (ok _)) s = patches _ _ _ s
    adopt_if-calm obj (AdoptOnce.done (err e)) s = λ n. cc
    adopt_if-calm obj (AdoptOnce.done panic) s = patches _ _ _ s

    pub adopt_object-Settles :
        (obj : Meta) (once : AdoptOnce) (s : State) → Settles (adopt_object m patch obj once s)
    unfolding adopt_object ◌>>=◌ pure
    adopt_object-Settles obj once s =
        let asked = can_adopt_lem once s in
        let tries =
          try_lem (adopt_if m patch obj asked.then_once) asked.later
            (adopt_if-calm obj asked.then_once asked.later) in
        record {
          outcome = tries.outcome;
          other = asked.then_once;
          later = tries.later;
          returned = rw (asked.returned, tries.returned) refl;
          calm = tries.calm;
        }

    ignore_gone-calm : (r : Result (Unit {0})) → r ≢ panic → ignore_gone r ≢ panic
    ignore_gone-calm (ok _) h = λ n. cc
    ignore_gone-calm (err e) h = ground arith
    ignore_gone-calm panic h = h

    pub release_object-Settles :
        (obj : Meta) (once : AdoptOnce) (s : State) → Settles (release_object m patch obj once s)
    unfolding release_object ◌>>=◌ pure
    release_object-Settles obj once s =
        let tries =
          try_lem (patch obj.namespace obj.name (delete_owner_ref_patch m obj)) s
            (patches _ _ _ s) in
        record {
          outcome = ignore_gone tries.outcome;
          other = once;
          later = tries.later;
          returned = rw tries.returned refl;
          calm = ignore_gone-calm tries.outcome tries.calm;
        }
