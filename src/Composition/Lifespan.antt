-- ===== src/Composition/Lifespan.antt =====
-- `_lifespan` of backend/src/app/main.py: from the building of the container to its shutdown.
use ndma_edit.Prelude.{true, false, ◌≡◌, ◌↔◌, refl}
use ndma_edit.Outcome.{Outcome, ok, err, ◌and_then◌}
use ndma_edit.Infrastructure.Settings.{Settings}
use ndma_edit.Composition.{
  Container, Resources, Answers, build_container, shutdown_container, container_of,
}

-- `finally: await shutdown_container(container)`: what the shutdown raises replaces the rest.
abbrev pub finally :
    Outcome (Unit {0}) → Outcome (Unit {0}) × Resources → Outcome (Unit {0}) × Resources
finally served (ok _, held) = (served, held)
finally served (err e, held) = (err e, held)

-- `_lifespan`: `serve` is the time behind the `yield`, which may end by an exception.
unfoldable pub lifespan :
    Answers
    → (Container → Outcome (Unit {0}))
    → Settings
    → Resources
    → Outcome (Unit {0}) × Resources
lifespan answers serve settings held =
    build_container answers settings held and_then λ container held'.
    finally (serve container) (shutdown_container answers held')

abbrev pub nothing_held : Resources
nothing_held = record { engine_open = false; redis_open = false; arq_open = false }

-- However the serving ends, the process lets go of all that it opened, and the serving's outcome is
-- the lifespan's, if the calls that open and close do not raise.
pub lifespan_releases :
    (answers : Answers) (serve : Container → Outcome (Unit {0})) (settings : Settings)
    → answers.create_pool ≡ ok tt
    → answers.arq_aclose ≡ ok tt
    → answers.redis_aclose ≡ ok tt
    → answers.engine_dispose ≡ ok tt
    → lifespan answers serve settings nothing_held ≡ (serve (container_of settings), nothing_held)
unfolding lifespan build_container shutdown_container
lifespan_releases answers serve settings pool arq redis engine = rw (pool, arq, redis, engine) refl

-- The shutdown closes in a fixed order and stops at the first call that raises: the engine is disposed
-- of exactly if all three calls return.
pub shutdown_iff :
    (answers : Answers) (held : Resources)
    → held.engine_open ≡ true
    → let (r, held') = shutdown_container answers held in (held'.engine_open ≡ false) ↔ (r ≡ ok tt)
unfolding shutdown_container
shutdown_iff answers held is_open =
    by_answers answers.arq_aclose answers.redis_aclose answers.engine_dispose
  where
    not_both : held.engine_open ≡ false → ⊥
    not_both h = cc

    by_answers :
        (a b c : Outcome (Unit {0}))
        → let (r, held') =
            shutdown_container
              (record answers { arq_aclose = a; redis_aclose = b; engine_dispose = c })
              held in
          (held'.engine_open ≡ false) ↔ (r ≡ ok tt)
    by_answers (ok _) (ok _) (ok _) = (λ h. refl, λ h. refl)
    by_answers (ok _) (ok _) (err e) = (λ h. absurd (not_both h), λ h. cc)
    by_answers (ok _) (err e) c = (λ h. absurd (not_both h), λ h. cc)
    by_answers (err e) b c = (λ h. absurd (not_both h), λ h. cc)
