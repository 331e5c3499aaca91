-- ===== src/Reactor/Tests.antt =====
-- Runs of the reactor's queue.
use nexus_mq.Base.{ℕ, List, [], ◌∷◌, ◌≡◌, refl, arith}
use nexus_mq.Reactor.SpscQueue.{
  Turn, produce, consume, silent, pushed, popped, run, created, turn, produce_access,
  consume_access, write_cell,
}
use nexus_mq.Reactor.SpscQueue.Fifo.{DoesEach}
use nexus_mq.Reactor.SpscQueue.Refinement.Accesses.{run-refines}

-- The consumer starts to pop while the producer is still writing.
abbrev turns : List (Turn ℕ)
turns = produce 7 ∷ produce 7 ∷ consume ∷ produce 7 ∷ produce 7 ∷ consume ∷ consume ∷ consume ∷ []

run-turns :
    run 1 turns (created (λ i. 0))
    ≡ silent ∷ silent ∷ silent ∷ silent ∷ pushed 7 ∷ silent ∷ silent ∷ popped 7 ∷ []
unfolding run turn produce_access consume_access write_cell
run-turns = refl

run-refines_example : (r : List ℕ) × DoesEach 1 [] (run 1 turns (created (λ i. 0))) r
run-refines_example = run-refines 1 (λ i. 0) turns (omega arith)
