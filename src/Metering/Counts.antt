-- ===== src/Metering/Counts.antt =====
-- How exactly the meter of app.py and core/usage_meter.py counts the context calls of an actor.
use sharpe_nova_os.Prelude.{
  ℕ, ◌+◌, ◌-◌, ◌*◌, ◌≡◌, refl, ap, ◌∙◌, ◌⊎◌, inl, inr, Bool, true, false, Option, List, [], ◌∷◌,
  String, ◌==◌, arith, if◌then◌else◌, Bool-cases, count_in, All, Dict, put, get_or, eq_iff,
}
use sharpe_nova_os.Metering.Usage.{
  UsageRecord, UsageStore, known_actor, empty_usage_record, CallTimes, ensure_usage_record,
  save_usage, counted_context, increment_context_call, counted_proof, increment_proof_call,
  get_usage_record, load_usage,
}
use sharpe_nova_os.Metering.Meter.{
  MeterState, initial_meter, SettlementSummary, MeterEvent, context_call, proof_call, wallet_call,
  summary_call, restart, meter_context_admission, meter_proof_retrieval, settlement_summary_payload,
  meter_event, metered,
}

-- A context call of the actor.
abbrev pub is_call_of : String → MeterEvent → Bool
is_call_of actor (context_call t writes other) = known_actor actor == known_actor other
is_call_of actor (proof_call t other) = false
is_call_of actor (wallet_call writes other wallet) = false
is_call_of actor (summary_call writes other) = false
is_call_of actor restart = false

-- The event writes the file of the usage, if it changes the usage.
abbrev pub IsWritten : MeterEvent → Type 0
IsWritten (context_call t writes other) = t.writes ≡ true
IsWritten (proof_call t other) = t.writes ≡ true
IsWritten (wallet_call writes other wallet) = Unit
IsWritten (summary_call writes other) = Unit
IsWritten restart = Unit

-- The process goes on.
abbrev pub IsRunning : MeterEvent → Type 0
IsRunning (context_call t writes other) = Unit
IsRunning (proof_call t other) = Unit
IsRunning (wallet_call writes other wallet) = Unit
IsRunning (summary_call writes other) = Unit
IsRunning restart = true ≡ false

module _ (actor : String) where
  abbrev calls_in : Dict UsageRecord → ℕ
  calls_in records =
      (get_or (empty_usage_record (known_actor actor)) (records (known_actor actor))).context_calls

save_usage-records :
    (t : CallTimes) (other : String) (r : UsageRecord) (s : UsageStore)
    → (save_usage t other r s).1.records ≡ put (known_actor other) r s.records
unfolding save_usage
save_usage-records t other r s = elim (Bool-cases t.writes) [
  | inl e ↦ rw e refl
  | inr e ↦ rw e refl
]

save_usage-file :
    (t : CallTimes) (other : String) (r : UsageRecord) (s : UsageStore)
    → t.writes ≡ true
    → (save_usage t other r s).1.file ≡ (save_usage t other r s).1.records
unfolding save_usage
save_usage-file t other r s e = rw e refl

-- The calls in the records when the record of one actor is replaced.
calls_in-put :
    (actor other now : String) (records : Dict UsageRecord) (r : UsageRecord) (n : ℕ)
    → r.context_calls ≡ (ensure_usage_record other now records).context_calls + n
    → calls_in actor (put (known_actor other) r records)
      ≡ calls_in actor records + (if known_actor actor == known_actor other then n else 0)
unfolding ensure_usage_record empty_usage_record
calls_in-put actor other now records r n e =
    elim (Bool-cases (known_actor actor == known_actor other)) [
      | inl same ↦
          let id : known_actor actor ≡ known_actor other =
            ground (arith, eq_iff (known_actor actor) (known_actor other)) in
          let replaced : calls_in actor (put (known_actor other) r records) ≡ r.context_calls =
            rw (calls_in, same) refl in
          let own : r.context_calls ≡ calls_in other records + n = e in
          let entry : calls_in actor records ≡ calls_in other records =
            ap (λ (k : String). (get_or (empty_usage_record k) (records k)).context_calls) id in
          let added : (if known_actor actor == known_actor other then n else 0) ≡ n =
            rw same refl in
          omega (arith, replaced, own, entry, added)
      | inr apart ↦
          let kept : calls_in actor (put (known_actor other) r records) ≡ calls_in actor records =
            rw (calls_in, apart) refl in
          rw apart (omega (arith, kept))
    ]

abbrev one_if : Bool → ℕ
one_if b = if b then 1 else 0

-- One event of a process that goes on.
meter_event-calls :
    (destination : Option String) (actor : String) (e : MeterEvent) (s : MeterState)
    → IsRunning e
    → calls_in actor (meter_event destination e s).usage.records
      ≡ calls_in actor s.usage.records + one_if (is_call_of actor e)
unfolding meter_event meter_context_admission meter_proof_retrieval increment_context_call
    increment_proof_call counted_context counted_proof settlement_summary_payload
meter_event-calls d actor (context_call t writes other) s runs =
    let r = counted_context t (ensure_usage_record other t.now s.usage.records) in
    ap (calls_in actor) (save_usage-records t other r s.usage)
    ∙ calls_in-put actor other t.now s.usage.records r 1 (omega arith)
meter_event-calls d actor (proof_call t other) s runs =
    let r = counted_proof t (ensure_usage_record other t.now s.usage.records) in
    let put_in =
      ap (calls_in actor) (save_usage-records t other r s.usage)
      ∙ calls_in-put actor other t.now s.usage.records r 0 (omega arith) in
    put_in ∙ ground arith
meter_event-calls d actor (wallet_call writes other wallet) s runs = omega arith
meter_event-calls d actor (summary_call writes other) s runs = omega arith
meter_event-calls d actor restart s runs = cc

-- The file stays the same as the memory where each change is written.
meter_event-file :
    (destination : Option String) (e : MeterEvent) (s : MeterState)
    → IsWritten e
    → s.usage.file ≡ s.usage.records
    → (meter_event destination e s).usage.file ≡ (meter_event destination e s).usage.records
unfolding meter_event meter_context_admission meter_proof_retrieval increment_context_call
    increment_proof_call settlement_summary_payload load_usage
meter_event-file d (context_call t writes other) s written same =
    save_usage-file t other _ s.usage written
meter_event-file d (proof_call t other) s written same = save_usage-file t other _ s.usage written
meter_event-file d (wallet_call writes other wallet) s written same = same
meter_event-file d (summary_call writes other) s written same = same
meter_event-file d restart s written same = refl

-- One event where the file is the same as the memory.
written-calls :
    (destination : Option String) (actor : String) (e : MeterEvent) (s : MeterState)
    → s.usage.file ≡ s.usage.records
    → calls_in actor (meter_event destination e s).usage.records
      ≡ calls_in actor s.usage.records + one_if (is_call_of actor e)
unfolding meter_event load_usage
written-calls d actor (context_call t writes other) s same =
    meter_event-calls d actor (context_call t writes other) s tt
written-calls d actor (proof_call t other) s same =
    meter_event-calls d actor (proof_call t other) s tt
written-calls d actor (wallet_call writes other wallet) s same =
    meter_event-calls d actor (wallet_call writes other wallet) s tt
written-calls d actor (summary_call writes other) s same =
    meter_event-calls d actor (summary_call writes other) s tt
written-calls d actor restart s same = ap (calls_in actor) same ∙ omega arith

count_in-cons :
    (actor : String) (e : MeterEvent) (es : List MeterEvent)
    → count_in (is_call_of actor) (e ∷ es)
      ≡ one_if (is_call_of actor e) + count_in (is_call_of actor) es
count_in-cons actor e es = ground arith

metered-running :
    (destination : Option String) (actor : String) (es : List MeterEvent) (s : MeterState)
    → All IsRunning es
    → calls_in actor (metered destination es s).usage.records
      ≡ calls_in actor s.usage.records + count_in (is_call_of actor) es
unfolding metered
metered-running d actor [] s all = omega arith
metered-running d actor (e ∷ es) s (runs, all) = omega (
  arith,
  meter_event-calls d actor e s runs,
  metered-running d actor es (meter_event d e s) all,
  count_in-cons actor e es,
)

metered-written :
    (destination : Option String) (actor : String) (es : List MeterEvent) (s : MeterState)
    → All IsWritten es
    → s.usage.file ≡ s.usage.records
    → calls_in actor (metered destination es s).usage.records
      ≡ calls_in actor s.usage.records + count_in (is_call_of actor) es
unfolding metered
metered-written d actor [] s all same = omega arith
metered-written d actor (e ∷ es) s (written, all) same = omega (
  arith,
  written-calls d actor e s same,
  metered-written d actor es (meter_event d e s) all (meter_event-file d e s written same),
  count_in-cons actor e es,
)

-- The summary has a number of calls, those beyond the free ones, and what they cost.
pub record IsBilledFor (n : ℕ) (summary : SettlementSummary) : Type 0 where
  pub calls : summary.context_calls ≡ n
  pub billable : summary.billable_context_calls ≡ n - 50
  pub due : summary.amount_due_usd ≡ (n - 50) * 2

-- Over any history from an empty meter in which either the process never restarts, whatever writes
-- fail, or every write of the usage file succeeds, whatever restarts come between, the settlement
-- summary of an actor has exactly the number of its context calls, and what those beyond the first 50
-- cost.
pub metered-IsBilledFor :
    (destination : Option String) (actor : String) (es : List MeterEvent) (writes : Bool)
    → All IsRunning es ⊎ All IsWritten es
    → IsBilledFor
        (count_in (is_call_of actor) es)
        (settlement_summary_payload destination writes actor
          (metered destination es initial_meter)).0
unfolding settlement_summary_payload get_usage_record empty_usage_record
metered-IsBilledFor d actor es writes kind =
    let counted : calls_in actor (metered d es initial_meter).usage.records
        ≡ count_in (is_call_of actor) es =
      elim kind [
        | inl runs ↦ omega (arith, metered-running d actor es initial_meter runs)
        | inr written ↦ omega (arith, metered-written d actor es initial_meter written refl)
      ] in
    record {
      calls = counted;
      billable = ap (λ n. n - 50) counted;
      due = ap (λ n. (n - 50) * 2) counted;
    }
