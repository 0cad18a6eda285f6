-- ===== src/Queues/Queue.antt =====
-- The part of `asyncio.Queue` that the program uses. `none` stands for the exception that the
-- operation raises: QueueFull, QueueEmpty, and ValueError of a `task_done` without its `put`.
use voice_agent_v.Prelude.{
  ℕ, zero, suc, ◌≤◌, ◌≢◌, Bool, not, ◌&&◌, Option, none, some, List, [], ◌∷◌, ◌++◌, length, leb,
  ◌==◌, nat_eq, if◌then◌else◌,
}

pub record Queue (A : Type 0) : Type 0 where
  pub maxsize : ℕ
  pub items : List A
  pub unfinished_tasks : ℕ

module _ {A : Type 0} where
  unfoldable pub empty : ℕ → Queue A
  empty n = record { maxsize = n; items = []; unfinished_tasks = 0 }

  -- A queue of size 0 has no bound.
  unfoldable pub full : Queue A → Bool
  full q = not (q.maxsize == 0) && leb q.maxsize (length q.items)

  unfoldable pub put_nowait : A → Queue A → Option (Queue A)
  put_nowait a q =
      if full q
      then none
      else some (record q { items = q.items ++ a ∷ []; unfinished_tasks = suc q.unfinished_tasks })

  with_items : Queue A → List A → Option (A × Queue A)
  with_items q [] = none
  with_items q (a ∷ items) = some (a, record q { items = items })

  unfoldable pub get_nowait : Queue A → Option (A × Queue A)
  unfolding with_items
  get_nowait q = with_items q q.items

  with_tasks : Queue A → ℕ → Option (Queue A)
  with_tasks q zero = none
  with_tasks q (suc n) = some (record q { unfinished_tasks = n })

  unfoldable pub task_done : Queue A → Option (Queue A)
  unfolding with_tasks
  task_done q = with_tasks q q.unfinished_tasks

  -- Within its bound, and with every item it holds unfinished.
  pub record WellFormed (q : Queue A) : Type 0 where
    pub bounded : q.maxsize ≢ 0 → length q.items ≤ q.maxsize
    pub pending : length q.items ≤ q.unfinished_tasks
