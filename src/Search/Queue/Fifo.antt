-- ===== src/Search/Queue/Fifo.antt =====
-- The queue holds each path once, and its set of members is the set of the queued paths.
use context_os_mcp.Prelude.{
  Bool-cases, List, Text, [], ap, arith, contains, false, inl, inr, list_beq_iff, list_eq, nat_eq,
  not, refl, some, some-injective, subst, sym, ◌&&◌, ◌++◌, ◌==◌, ◌∙◌, ◌∷◌, ◌≡◌,
}
use context_os_mcp.Search.Queue.{
  dequeue_from, QueueState, empty_queue, enqueue, dequeue, close, without,
}

-- Any thread may take any of these steps, each under the lock.
pub data Step : QueueState → QueueState → Type 0 where
  enqueues : (q : QueueState) (path : Text) → Step q (enqueue path q)
  dequeues : (q r : QueueState) (path : Text) → dequeue q ≡ some (path, r) → Step q r
  closes : (q : QueueState) → Step q (close q)

pub data Reach (q : QueueState) : QueueState → Type 0 where
  here : Reach q q
  next : {r s : QueueState} → Reach q r → Step r s → Reach q s

-- No path stands twice.
abbrev pub Once : List Text → Type 0
Once [] = Unit
Once (x ∷ xs) = (contains x xs ≡ false) × Once xs

pub record IsQueue (q : QueueState) : Type 0 where
  pub once : Once q.order
  pub same : (path : Text) → contains path q.members ≡ contains path q.order

contains-push : (x y : Text) (xs : List Text) → contains y (xs ++ x ∷ []) ≡ contains y (x ∷ xs)
contains-push x y [] = refl
contains-push x y (z ∷ xs) = ground (arith, contains-push x y xs)

Once-push : (x : Text) (xs : List Text) → contains x xs ≡ false → Once xs → Once (xs ++ x ∷ [])
Once-push x [] h o = (refl, tt)
Once-push x (y ∷ xs) h (fresh, o) = (
  contains-push x y xs ∙ ground (arith, list_beq_iff x y, list_beq_iff y x),
  Once-push x xs (ground arith) o,
)

contains-without :
    (x y : Text) (xs : List Text) → contains y (without x xs) ≡ (not (x == y) && contains y xs)
contains-without x y [] = ground arith
contains-without x y (z ∷ xs) =
    ground (arith, contains-without x y xs, list_beq_iff x z, list_beq_iff y z, list_beq_iff x y)

IsQueue-enqueue : (path : Text) (q : QueueState) → IsQueue q → IsQueue (enqueue path q)
unfolding enqueue
IsQueue-enqueue path q h = elim (Bool-cases q.closed) [
  | inl e ↦ rw e (record { once = h.once; same = h.same })
  | inr e ↦ elim (Bool-cases (contains path q.members)) [
    | inl m ↦ rw (e, m) (record { once = h.once; same = h.same })
    | inr m ↦
        rw (e, m)
          (record {
            once = Once-push path q.order (sym (h.same path) ∙ m) h.once;
            same = λ p. ground (arith, h.same p, contains-push path p q.order);
          })
  ]
]

IsQueue-rest :
    (path : Text) (rest : List Text) (q : QueueState)
    → q.order ≡ path ∷ rest
    → IsQueue q
    → IsQueue (record q { order = rest; members = without path q.members })
IsQueue-rest path rest q e h =
    let (fresh, once) = subst Once e h.once in
    record {
      once = once;
      same = λ p.
          contains-without path p q.members
          ∙ rw (h.same p, e) (ground (arith, list_beq_iff path p, list_beq_iff p path));
    }

dequeue_from-IsQueue :
    (order : List Text) (q r : QueueState) (path : Text)
    → q.order ≡ order
    → dequeue_from order q ≡ some (path, r)
    → IsQueue q
    → IsQueue r
dequeue_from-IsQueue [] q r path same e h = cc
dequeue_from-IsQueue (p ∷ rest) q r path same e h =
    subst IsQueue (ap (λ s. s.1) (some-injective _ _ e)) (IsQueue-rest p rest q same h)

Step-IsQueue : {q r : QueueState} → Step q r → IsQueue q → IsQueue r
unfolding dequeue close
Step-IsQueue (enqueues q path) h = IsQueue-enqueue path q h
Step-IsQueue (dequeues q r path e) h = dequeue_from-IsQueue q.order q r path refl e h
Step-IsQueue (closes q) h = record { once = h.once; same = h.same }

-- However the threads interleave their calls, starting from the empty queue: no path is queued
-- twice, and the set of members is the set of the queued paths.
pub Reach-IsQueue : (q : QueueState) → Reach empty_queue q → IsQueue q
Reach-IsQueue q here = record { once = tt; same = λ path. refl }
Reach-IsQueue q (next r s) = Step-IsQueue s (Reach-IsQueue _ r)
