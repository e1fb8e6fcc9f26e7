-- ===== src/Flappy/Server/Runs.antt =====
-- The servers that come about: from a new hub, by any steps of the goroutines in any order.
use mathlib.Core.Path.{subst}
use hmlb.Prelude.{ℕ, ◌+◌, ◌<◌, ◌^◌, ◌≡◌, refl, sym, ◌∙◌, Bool, some, nat_eq}
use hmlb.Prelude.Maps.{lookup}
use hmlb.Flappy.Float.{Float, FloatLaws}
use hmlb.Flappy.Hub.Defs.{Config, new_hub}
use hmlb.Flappy.Hub.Phase.{some_injective}
use hmlb.Flappy.Hub.Safety.{new_hub-IsHub}
use hmlb.Flappy.Rng.{Rng}
use hmlb.Flappy.Server.{unopened, Server, Action, act}
use hmlb.Flappy.Server.Link.{IsServer}
use hmlb.Flappy.Server.Safety.{act_total}
use hmlb.Flappy.Store.Defs.{Store}

module _ {A : Type 0} ⦃f : Float A⦄ where
  -- No connection has been opened.
  abbrev pub new_server : Config → Store → Rng → Server A
  new_server cfg store rng = record { hub = new_hub cfg store rng; readers = λ c. unopened }

  -- Ids are not used up on the way.
  pub data Reached (is_print : ℕ → Bool) : Server A → Type 0 where
    start : (cfg : Config) (store : Store) (rng : Rng) → Reached is_print (new_server cfg store rng)
    more :
        {s s' : Server A} (a : Action)
        → Reached is_print s
        → s.hub.next_id + 1 < 2 ^ 64
        → act is_print a s ≡ some s'
        → Reached is_print s'

  new_server-IsServer :
      (cfg : Config) (store : Store) (rng : Rng) → IsServer (new_server cfg store rng)
  unfolding new_hub lookup
  new_server-IsServer cfg store rng = record {
    hub = new_hub-IsHub cfg store rng;
    links = λ c. refl;
  }

  pub Reached-IsServer :
      FloatLaws f → (is_print : ℕ → Bool) (s : Server A) → Reached is_print s → IsServer s
  Reached-IsServer laws is_print s (start cfg store rng) = new_server-IsServer cfg store rng
  Reached-IsServer laws is_print s (more {s = g} a r room runs) =
      let (s', runs', ok) = act_total laws is_print a g (Reached-IsServer laws is_print g r) room in
      let same : s' ≡ s = some_injective (sym runs' ∙ runs) in subst IsServer same ok

  -- With the float laws, on every server that has come about from a new hub by any steps of the
  -- goroutines and the ticker in any order, every step succeeds, and the server that results has
  -- come about so too: the hub never faults, whatever the clients send and whichever events are
  -- lost, while ids are not used up.
  pub Reached-total :
      FloatLaws f
      → (is_print : ℕ → Bool) (a : Action) (s : Server A) → Reached is_print s
      → s.hub.next_id + 1 < 2 ^ 64
      → (s' : Server A) × (act is_print a s ≡ some s') × Reached is_print s' × IsServer s'
  Reached-total laws is_print a s r room =
      let (s', runs, ok) = act_total laws is_print a s (Reached-IsServer laws is_print s r) room in
      (s', runs, more a r room runs, ok)
