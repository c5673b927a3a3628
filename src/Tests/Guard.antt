-- ===== src/Tests/Guard.antt =====
-- Runs of the runtime guard (retail_context/runtime_guard.py).
use sharpe_nova_os.Prelude.{
  ◌≡◌, ◌≢◌, refl, ◌≤◌, true, false, Option, none, some, List, [], ◌∷◌, String, ℤ, pos, arith,
  eq_iff, is_some, if◌then◌else◌, ◌==◌,
}
use sharpe_nova_os.Exec.{returned, ◌>>=◌}
use sharpe_nova_os.Controls.Types.{epoch_or_error, window_start}
use sharpe_nova_os.Guard.{
  GuardDb, Attempt, connection, find_guard, select_guard, add_guard, initialize_found,
  initialize_request, use_continuation, consume_found, consume_bound, consume_in_window,
  consume_existing_attempt,
}
use sharpe_nova_os.Guard.Binding.{GuardCall, initialize_request_call, consume_call, history}
use sharpe_nova_os.Guard.Attempts.{is_exempt, consume-bound_forever, consume-exempt_once}
use sharpe_nova_os.Guard.Windows.{AreOrdered, total_retries, total_retries-le-limit}

-- A clock that reads every time as the same second.
abbrev at_65 : String → Option ℤ
at_65 _ = some (pos 65)

abbrev pub closed_guard : GuardDb
closed_guard = record { initialized = true; guards = []; faults = [] }

abbrev first_attempt : Attempt
first_attempt = record {
  request_id = "request-1";
  source_binding_digest = "sources-1";
  payment_present = true;
  observed_at = "1970-01-01T00:01:05Z";
}

abbrev unpaid : Attempt
unpaid = record first_attempt { payment_present = false }

abbrev bound_guard : GuardDb
bound_guard = record closed_guard {
  guards =
      record {
        request_id = "request-1";
        source_binding_digest = "sources-1";
        payment_continuation_used = false;
        retry_window_started_at_epoch = none;
        retry_count = 0;
        updated_at = "1970-01-01T00:01:00Z";
        authority_effect = "none";
      }
      ∷ [];
}

abbrev attempts : List GuardCall
attempts = consume_call unpaid 60 2 ∷ consume_call unpaid 60 2 ∷ consume_call unpaid 60 2 ∷ []

first_returned : returned (initialize_request first_attempt closed_guard).0 ≡ true
unfolding initialize_request connection select_guard find_guard initialize_found add_guard ◌>>=◌
first_returned = refl

other_sources : ◌≢◌ {A = String} "sources-1" "sources-2"
other_sources p = ground (arith, eq_iff "sources-1" "sources-2")

consume-bound_forever_example :
    returned
      (consume_existing_attempt at_65
        (record {
          request_id = "request-1";
          source_binding_digest = "sources-2";
          payment_present = true;
          observed_at = "1970-01-01T00:01:06Z";
        })
        60
        2
        (history at_65 attempts (initialize_request first_attempt closed_guard).1)).0
    ≡ false
consume-bound_forever_example =
    consume-bound_forever at_65 first_attempt closed_guard attempts "sources-2" true
      "1970-01-01T00:01:06Z" 60 2 first_returned other_sources

first_exempt : is_exempt (consume_existing_attempt at_65 first_attempt 60 2 bound_guard).0 ≡ true
unfolding consume_existing_attempt epoch_or_error consume_in_window connection select_guard
    find_guard consume_found consume_bound use_continuation ◌>>=◌
first_exempt = refl

consume-exempt_once_example :
    is_exempt
      (consume_existing_attempt at_65
        (record {
          request_id = "request-1";
          source_binding_digest = "sources-1";
          payment_present = true;
          observed_at = "1970-01-01T00:01:06Z";
        })
        60
        2
        (history at_65 attempts
          (consume_existing_attempt at_65 first_attempt 60 2 bound_guard).1)).0
    ≡ false
consume-exempt_once_example =
    consume-exempt_once at_65 first_attempt 60 2 bound_guard attempts "sources-1" true
      "1970-01-01T00:01:06Z" 60 2 first_exempt

-- A clock that knows two times, in two windows of a minute.
abbrev two_times : String → Option ℤ
two_times at = if at == "1970-01-01T00:01:05Z" then some (pos 65) else some (pos 125)

abbrev later_attempt : Attempt
later_attempt = record unpaid { observed_at = "1970-01-01T00:02:05Z" }

abbrev retry_calls : List GuardCall
retry_calls =
    initialize_request_call unpaid
    ∷ consume_call unpaid 60 2
    ∷ consume_call unpaid 60 2
    ∷ consume_call unpaid 60 2
    ∷ consume_call later_attempt 60 2
    ∷ []

no_row_yet : is_some (find_guard "request-1" closed_guard.guards) ≡ false
unfolding find_guard
no_row_yet = refl

retries_ordered : AreOrdered two_times "request-1" none retry_calls
unfolding AreOrdered window_start
retries_ordered = ((λ _. (refl, later)), (λ other. cc))
  where
    last_one :
        AreOrdered two_times "request-1" (some (pos 60)) (consume_call later_attempt 60 2 ∷ [])
    last_one = ((λ _. (refl, tt)), (λ other. cc))

    third :
        AreOrdered two_times "request-1"
          (some (pos 60))
          (consume_call unpaid 60 2 ∷ consume_call later_attempt 60 2 ∷ [])
    third = ((λ _. (refl, last_one)), (λ other. cc))

    later :
        AreOrdered two_times "request-1" (some (pos 60)) (
          consume_call unpaid 60 2
          ∷ consume_call unpaid 60 2
          ∷ consume_call later_attempt 60 2
          ∷ [])
    later = ((λ _. (refl, third)), (λ other. cc))

total_retries-le-limit_example :
    total_retries two_times "request-1" (pos 60) retry_calls closed_guard ≤ 2
total_retries-le-limit_example =
    total_retries-le-limit two_times "request-1" (pos 60) 2 retry_calls closed_guard no_row_yet
      retries_ordered
      (
        tt,
        (
          (λ _ _. omega arith),
          ((λ _ _. omega arith), ((λ _ _. omega arith), ((λ _ _. omega arith), tt))),
        ),
      )
