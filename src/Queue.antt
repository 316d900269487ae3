-- ===== src/Queue.antt =====
-- src/common/utils.ts, `consumableAsyncQueue`. A promise is a number, an abort reason too. The chain
-- of `operation` is the list of the items that it still has to pass on, and `process` is its next
-- round: the code's calls are `push`, `shift`, `waitFor` and `abortWith`, and the turns of the event
-- loop are `process` and the cancellations (a signal that aborts, or a timeout). What a turn settles
-- or calls back comes back as effects.
pub mod Effects
pub mod Invariant
pub mod View
pub mod Fifo
pub mod Order
pub mod Delivery
pub mod Closed
pub mod Deciphered
pub mod Shrinking
pub mod Bounded
mod Tests
use web_tether.Common.{
  ℕ, ◌+◌, ◌-◌, Bool, true, false, Option, none, some, List, [], ◌∷◌, ◌++◌, ◌==◌, if◌then◌else◌, map,
}

-- What `map` makes of an item: a content, or the reason of its rejection.
pub data Outcome (O : Type 0) : Type 0 where
  content : O → Outcome O
  failure : ℕ → Outcome O

pub record Value (I O : Type 0) : Type 0 where
  pub input : I
  pub outcome : Outcome O

pub record Queue (I O : Type 0) : Type 0 where
  pub aborted : Option ℕ
  pub queued : ℕ
  pub processing : List I
  pub pending : List (Value I O)
  pub waiting : List ℕ
  pub enqueue_listeners : List ℕ
  pub dequeue_listeners : List ℕ
  pub next_promise : ℕ

pub data Effect (I O : Type 0) : Type 0 where
  settled : ℕ → Outcome O → Effect I O
  rejected : ℕ → ℕ → Effect I O
  notified : ℕ → Effect I O
  dequeued : I → Effect I O
  dropped : I → ℕ → Effect I O

pub data QueueEvent : Type 0 where
  enqueue dequeue : QueueEvent

-- The calls and the turns. `shift` and `wait_for` come with the reason of a signal that is already
-- aborted; a cancellation names its promise and its reason.
pub data Call (I : Type 0) : Type 0 where
  push : I → Call I
  process : Call I
  shift : Option ℕ → Call I
  cancel_shift : ℕ → ℕ → Call I
  wait_for : QueueEvent → Option ℕ → Call I
  cancel_wait : ℕ → ℕ → Call I
  abort_with : ℕ → Call I

-- `indexOf` and `splice`: the first entry is removed, if there is one.
unfoldable pub remove : ℕ → List ℕ → List ℕ
remove p [] = []
remove p (x ∷ xs) = let rest = remove p xs in if x == p then xs else x ∷ rest

unfoldable pub is_in : ℕ → List ℕ → Bool
is_in p [] = false
is_in p (x ∷ xs) = let rest = is_in p xs in if x == p then true else rest

-- The two reasons for which `shift` and `waitFor` reject at once: their signal's, and the queue's.
abbrev pub reason_of : Option ℕ → Option ℕ → Option ℕ
reason_of (some reason) aborted = some reason
reason_of none aborted = aborted

module _ {I O : Type 0} where
  unfoldable pub new_queue : Queue I O
  new_queue = record {
    aborted = none;
    queued = 0;
    processing = [];
    pending = [];
    waiting = [];
    enqueue_listeners = [];
    dequeue_listeners = [];
    next_promise = 0;
  }

  -- `promise.reject(reason)` for each of them.
  abbrev pub reject_all : ℕ → List ℕ → List (Effect I O)
  reject_all reason = map (λ p. rejected p reason)

  abbrev pub notify_all : List ℕ → List (Effect I O)
  notify_all = map notified

  -- Each operation is a function of the fields that it tests, by clauses, and of the queue.
  unfoldable pub abort_from : Option ℕ → ℕ → Queue I O → Queue I O × List (Effect I O)
  abort_from (some _) reason q = (q, [])
  abort_from none reason q = (
    record q {
      aborted = some reason;
      queued = 0;
      pending = [];
      waiting = [];
      enqueue_listeners = [];
      dequeue_listeners = [];
    },
    map (λ v. dropped v.input reason) q.pending
        ++ (reject_all reason q.waiting
            ++ (reject_all reason q.enqueue_listeners ++ reject_all reason q.dequeue_listeners)),
  )

  unfoldable pub abort_queue : ℕ → Queue I O → Queue I O × List (Effect I O)
  unfolding abort_from
  abort_queue reason q = abort_from q.aborted reason q

  unfoldable pub push_from : Option ℕ → I → Queue I O → Queue I O × List (Effect I O)
  push_from (some _) item q = (q, [])
  push_from none item q = (
    record q {
      queued = q.queued + 1;
      enqueue_listeners = [];
      processing = q.processing ++ (item ∷ []);
    },
    notify_all q.enqueue_listeners,
  )

  unfoldable pub push_item : I → Queue I O → Queue I O × List (Effect I O)
  unfolding push_from
  push_item item q = push_from q.aborted item q

  -- A value that leaves the queue for a promise.
  unfoldable pub hand_over : ℕ → Value I O → Queue I O → Queue I O × List (Effect I O)
  hand_over p v q = (
    record q { dequeue_listeners = []; queued = q.queued - 1 },
    notify_all q.dequeue_listeners ++ (dequeued v.input ∷ settled p v.outcome ∷ []),
  )

  -- The end of a round of `operation`, once the item is mapped, for the promises in `waiting`.
  unfoldable pub deliver_to : List ℕ → Value I O → Queue I O → Queue I O × List (Effect I O)
  unfolding hand_over
  deliver_to [] v q = (record q { pending = q.pending ++ (v ∷ []) }, [])
  deliver_to (p ∷ waiting) v q = hand_over p v (record q { waiting = waiting })

  -- A round of `operation` for an item; `q` has the items behind it.
  unfoldable pub process_from :
      Option ℕ → (I → Outcome O) → I → Queue I O → Queue I O × List (Effect I O)
  unfolding deliver_to
  process_from (some _) f item q = (q, [])
  process_from none f item q = deliver_to q.waiting (record { input = item; outcome = f item }) q

  unfoldable pub process_items :
      List I → (I → Outcome O) → Queue I O → Queue I O × List (Effect I O)
  unfolding process_from
  process_items [] f q = (q, [])
  process_items (item ∷ items) f q = process_from q.aborted f item (record q { processing = items })

  unfoldable pub process_next : (I → Outcome O) → Queue I O → Queue I O × List (Effect I O)
  unfolding process_items
  process_next f q = process_items q.processing f q

  -- The next number for a promise.
  unfoldable pub count_promise : Queue I O → Queue I O
  count_promise q = record q { next_promise = q.next_promise + 1 }

  unfoldable pub shift_from : List (Value I O) → ℕ → Queue I O → Queue I O × List (Effect I O)
  unfolding hand_over
  shift_from [] p q = (record q { waiting = q.waiting ++ (p ∷ []) }, [])
  shift_from (v ∷ pending) p q = hand_over p v (record q { pending = pending })

  unfoldable pub shift_unless : Option ℕ → Queue I O → Queue I O × List (Effect I O)
  unfolding shift_from count_promise
  shift_unless (some reason) q = (count_promise q, rejected q.next_promise reason ∷ [])
  shift_unless none q = shift_from q.pending q.next_promise (count_promise q)

  -- `shift`, whose promise is the number `next_promise` of the queue before.
  unfoldable pub shift_item : Option ℕ → Queue I O → Queue I O × List (Effect I O)
  unfolding shift_unless
  shift_item signal q = shift_unless (reason_of signal q.aborted) q

  -- `abortShift`, and the callback of the timeout: nothing where the promise has settled already.
  unfoldable pub cancel_waiting : ℕ → ℕ → Queue I O → Queue I O × List (Effect I O)
  cancel_waiting p reason q =
      if is_in p q.waiting
      then (record q { waiting = remove p q.waiting }, rejected p reason ∷ [])
      else (q, [])

  unfoldable pub listen : QueueEvent → ℕ → Queue I O → Queue I O
  listen enqueue p q = record q { enqueue_listeners = q.enqueue_listeners ++ (p ∷ []) }
  listen dequeue p q = record q { dequeue_listeners = q.dequeue_listeners ++ (p ∷ []) }

  unfoldable pub wait_unless : Option ℕ → QueueEvent → Queue I O → Queue I O × List (Effect I O)
  unfolding listen count_promise
  wait_unless (some reason) event q = (count_promise q, rejected q.next_promise reason ∷ [])
  wait_unless none event q = (listen event q.next_promise (count_promise q), [])

  -- `waitFor`
  unfoldable pub wait_event : QueueEvent → Option ℕ → Queue I O → Queue I O × List (Effect I O)
  unfolding wait_unless
  wait_event event signal q = wait_unless (reason_of signal q.aborted) event q

  -- `abortWait`
  unfoldable pub cancel_listener : ℕ → ℕ → Queue I O → Queue I O × List (Effect I O)
  cancel_listener p reason q =
      if is_in p q.enqueue_listeners
      then (record q { enqueue_listeners = remove p q.enqueue_listeners }, rejected p reason ∷ [])
      else if is_in p q.dequeue_listeners
      then (record q { dequeue_listeners = remove p q.dequeue_listeners }, rejected p reason ∷ [])
      else (q, [])

  unfoldable pub queue_step : (I → Outcome O) → Call I → Queue I O → Queue I O × List (Effect I O)
  queue_step f (push item) q = push_item item q
  queue_step f process q = process_next f q
  queue_step f (shift signal) q = shift_item signal q
  queue_step f (cancel_shift p reason) q = cancel_waiting p reason q
  queue_step f (wait_for event signal) q = wait_event event signal q
  queue_step f (cancel_wait p reason) q = cancel_listener p reason q
  queue_step f (abort_with reason) q = abort_queue reason q

  unfoldable pub run_queue :
      (I → Outcome O) → List (Call I) → Queue I O → Queue I O × List (Effect I O)
  run_queue f [] q = (q, [])
  run_queue f (c ∷ cs) q =
      let (q₁, es₁) = queue_step f c q in let (q₂, es₂) = run_queue f cs q₁ in (q₂, es₁ ++ es₂)
