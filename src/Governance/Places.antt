-- ===== src/Governance/Places.antt =====
-- The place that `_evaluate_queue_governance` of app.py gives a request.
use mathlib.Core.List.{◌++◌ as ◌++ₗ◌}
use sharpe_nova_os.Prelude.{
  ℕ, suc, ◌+◌, ◌≤◌, ◌<◌, ◌≡◌, refl, ap, ◌∙◌, Bool, true, Option, some, List, [], ◌∷◌, String, arith,
  if◌then◌else◌, Bool-cases, inl, inr, length, exists_in, length-append, exists_in-append,
}
use sharpe_nova_os.Governance.Family.{TextHost}
use sharpe_nova_os.Governance.Queue.{
  QueueEntry, QueueState, QueueRequest, active_entries, last_25, prune_queue_entries, comes_before,
  insert_sorted, sorted, has_sequence, position_from, candidate, placed, enqueue,
}

-- A position that was found, from the start on and before the stop.
pub record IsFound (start stop : ℕ) (o : Option ℕ) : Type 0 where
  pub position : ℕ
  pub found : o ≡ some position
  pub lower : start ≤ position
  pub upper : position < stop

length-last_25 : (es : List QueueEntry) → length (last_25 es) ≤ 25
unfolding last_25
length-last_25 [] = omega arith
length-last_25 (e ∷ es) = ground (arith, length-last_25 es)

length-insert_sorted :
    (x : QueueEntry) (es : List QueueEntry) → length (insert_sorted x es) ≡ suc (length es)
unfolding insert_sorted
length-insert_sorted x [] = refl
length-insert_sorted x (e ∷ es) = elim (Bool-cases (comes_before e x)) [
  | inl before ↦ rw before (ap suc (length-insert_sorted x es))
  | inr after ↦ rw after refl
]

length-sorted : (es : List QueueEntry) → length (sorted es) ≡ length es
unfolding sorted
length-sorted [] = refl
length-sorted (e ∷ es) = length-insert_sorted e (sorted es) ∙ ap suc (length-sorted es)

exists_in-insert_sorted :
    (p : QueueEntry → Bool) (x : QueueEntry) (es : List QueueEntry)
    → exists_in p (insert_sorted x es) ≡ (if p x then true else exists_in p es)
unfolding insert_sorted
exists_in-insert_sorted p x [] = refl
exists_in-insert_sorted p x (e ∷ es) = elim (Bool-cases (comes_before e x)) [
  | inl before ↦ rw before (ground (arith, exists_in-insert_sorted p x es))
  | inr after ↦ rw after refl
]

exists_in-sorted :
    (p : QueueEntry → Bool) (es : List QueueEntry) → exists_in p (sorted es) ≡ exists_in p es
unfolding sorted
exists_in-sorted p [] = refl
exists_in-sorted p (e ∷ es) =
    ground (arith, exists_in-insert_sorted p e (sorted es), exists_in-sorted p es)

position_from-IsFound :
    (start n : ℕ) (es : List QueueEntry)
    → exists_in (has_sequence n) es ≡ true
    → IsFound start (start + length es) (position_from start n es)
unfolding position_from
position_from-IsFound start n [] some_entry = cc
position_from-IsFound start n (e ∷ es) some_entry = elim (Bool-cases (has_sequence n e)) [
  | inl here ↦
      rw here (record { position = start; found = refl; lower = omega arith; upper = omega arith })
  | inr later ↦
      let rest = position_from-IsFound (suc start) n es (ground (arith, some_entry, later)) in
      rw later (record {
        position = rest.position;
        found = rest.found;
        lower = omega (arith, rest.lower);
        upper = omega (arith, rest.upper);
      })
]

module _ (h : TextHost) (sha256 : String → String) (regime : String) (q : QueueRequest) where
  -- In every state of the queue a request gets a position, which is at least 1 and at most 26: the
  -- search for its entry among the sorted entries never fails, and at most 25 older entries are kept.
  pub enqueue-IsFound :
      (s : QueueState) → IsFound 1 27 (enqueue h sha256 regime q s).0.queue_position
  unfolding enqueue placed prune_queue_entries
  enqueue-IsFound s =
      let kept = last_25 (active_entries q.now regime q.epoch s.entries) in
      let new = candidate h sha256 regime q s.next_sequence ∷ [] in
      let place = position_from-IsFound 1 s.next_sequence (sorted (kept ++ₗ new)) (
        exists_in-sorted (has_sequence s.next_sequence) (kept ++ₗ new)
        ∙ exists_in-append (has_sequence s.next_sequence) kept new
        ∙ ground arith) in
      record {
        position = place.position;
        found = place.found;
        lower = place.lower;
        upper = omega (
          arith,
          place.upper,
          length-sorted (kept ++ₗ new),
          length-append kept new,
          length-last_25 (active_entries q.now regime q.epoch s.entries),
        );
      }
