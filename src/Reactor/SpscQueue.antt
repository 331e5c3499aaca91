-- ===== src/Reactor/SpscQueue.antt =====
-- reactor/spsc_queue.hpp: a ring for one producer and one consumer, of `2 ^ k` cells. The two threads
-- are interleaved at their accesses to the atomic counters and the cells; an access with release
-- order makes what its thread did before visible to the thread that acquires it.
pub mod Fifo
pub mod Counters
pub mod Refinement
use nexus_mq.Base.{ℕ, ◌+◌, ◌-◌, ◌%◌, ◌^◌, ◌≡◌, List, [], ◌∷◌, ◌==◌, if◌then◌else◌}

-- `std::size_t` wraps around at 2 ^ 64.
abbrev pub add_size : ℕ → ℕ → ℕ
add_size a b = (a + b) % 2 ^ 64

abbrev pub sub_size : ℕ → ℕ → ℕ
sub_size a b = (a + 2 ^ 64 - b) % 2 ^ 64

-- `pos & kMask`: the low bits.
abbrev pub cell : ℕ → ℕ → ℕ
cell k pos = pos % 2 ^ k

module _ {ℓ} (A : Type ℓ) where
  pub record SpscQueue : Type ℓ where
    pub head : ℕ
    pub tail : ℕ
    pub buf : ℕ → A

  -- Where the producer is in `try_push`: before it; it has loaded the tail; it found room; it has
  -- written the cell.
  pub data Producer : Type ℓ where
    resting : Producer
    has_tail : A → ℕ → Producer
    may_write : A → ℕ → Producer
    has_written : A → ℕ → Producer

  -- Where the consumer is in `try_pop`.
  pub data Consumer : Type ℓ where
    waiting : Consumer
    has_head : ℕ → Consumer
    may_read : ℕ → Consumer
    has_read : A → ℕ → Consumer

  -- What a call has returned, if this access was its last.
  pub data Event : Type ℓ where
    silent : Event
    pushed : A → Event
    refused : A → Event
    popped : A → Event
    found_empty : Event

  pub record Threads : Type ℓ where
    pub queue : SpscQueue
    pub producer : Producer
    pub consumer : Consumer

  -- Which thread makes its next access. A producer that rests starts to push the value.
  pub data Turn : Type ℓ where
    produce : A → Turn
    consume : Turn

module _ {ℓ} {A : Type ℓ} where
  unfoldable pub write_cell : ℕ → A → (ℕ → A) → ℕ → A
  write_cell place value buf i = if i == place then value else buf i

  -- One access of `try_push`.
  unfoldable pub produce_access :
      ℕ → A → SpscQueue A → Producer A → SpscQueue A × Producer A × Event A
  unfolding write_cell
  produce_access k value q resting = (q, has_tail value q.tail, silent)
  produce_access k value q (has_tail v t) =
      if sub_size t q.head == 2 ^ k then (q, resting, refused v) else (q, may_write v t, silent)
  produce_access k value q (may_write v t) =
      (record q { buf = write_cell (cell k t) v q.buf }, has_written v t, silent)
  produce_access k value q (has_written v t) = (record q { tail = add_size t 1 }, resting, pushed v)

  -- One access of `try_pop`.
  unfoldable pub consume_access : ℕ → SpscQueue A → Consumer A → SpscQueue A × Consumer A × Event A
  consume_access k q waiting = (q, has_head q.head, silent)
  consume_access k q (has_head h) =
      if h == q.tail then (q, waiting, found_empty) else (q, may_read h, silent)
  consume_access k q (may_read h) = (q, has_read (q.buf (cell k h)) h, silent)
  consume_access k q (has_read v h) = (record q { head = add_size h 1 }, waiting, popped v)

  unfoldable pub turn : ℕ → Turn A → Threads A → Threads A × Event A
  unfolding produce_access consume_access
  turn k (produce value) s =
      let (q, p, e) = produce_access k value s.queue s.producer in
      (record s { queue = q; producer = p }, e)
  turn k consume s =
      let (q, c, e) = consume_access k s.queue s.consumer in
      (record s { queue = q; consumer = c }, e)

  -- The returns of the calls, in the order in which they take effect.
  unfoldable pub run : ℕ → List (Turn A) → Threads A → List (Event A)
  unfolding turn
  run k [] s = []
  run k (t ∷ ts) s = let (s', e) = turn k t s in e ∷ run k ts s'

  -- The state that the queue is created in; the cells hold whatever their type starts with.
  abbrev pub created : (ℕ → A) → Threads A
  created cells = record {
    queue = record { head = 0; tail = 0; buf = cells };
    producer = resting;
    consumer = waiting;
  }
