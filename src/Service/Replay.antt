-- ===== src/Service/Replay.antt =====
-- A settlement pays for one response, however often it is sent again (retail_context/service.py).
use mathlib.Core.Path.{subst}
use mathlib.Core.Option.{some-injective}
use sharpe_nova_os.Prelude.{ℕ, ◌≡◌, sym, ap, ◌∙◌, some, String, List, [], ◌∷◌}
use sharpe_nova_os.Exec.{Result, ok}
use sharpe_nova_os.Payment.Types.{receipt_of}
use sharpe_nova_os.Payment.Requirement.{payment_network}
use sharpe_nova_os.Payment.Network.{process-network, build-network}
use sharpe_nova_os.Store.Db.{Db, PaymentRow}
use sharpe_nova_os.Store.Growth.{Grows, Grows-order}
use sharpe_nova_os.Controls.Claiming.{reference_text}
use sharpe_nova_os.Controls.Grants.{OnLedger, OnLedger-Grows}
use sharpe_nova_os.Delivery.Records.{IsOnRecord}
use sharpe_nova_os.Delivery.Redelivery.{on_record_unique}
use sharpe_nova_os.Service.World.{World}
use sharpe_nova_os.Service.Request.{RuntimeConfig, HttpRequest, Response, ServiceHost}
use sharpe_nova_os.Service.Handler.{handle_paid_resource}
use sharpe_nova_os.Service.Evolution.{any_log, handle-Moves}
use sharpe_nova_os.Service.Served.{IsServed, handle-IsServed}

-- A request, with the resource type of its route, the clock and the time that the delivery takes.
pub record Arrival : Type 0 where
  pub request : HttpRequest
  pub kind : String
  pub at : String
  pub elapsed : ℕ

OnLedger-unique :
    (network reference id id' : String) (s t : Db)
    → Grows s t
    → OnLedger network reference id s.payments
    → OnLedger network reference id' t.payments
    → id ≡ id'
OnLedger-unique network reference id id' s t g x y =
    let z = OnLedger-Grows network reference id s t g x in
    let row = some-injective z.row y.row (sym z.found ∙ y.found) in
    sym z.same ∙ ap (λ (r : PaymentRow). r.claim_id) row ∙ y.same

module _ (h : ServiceHost) (config : RuntimeConfig) where
  abbrev pub answer : Arrival → World → Result Response × World
  answer a = handle_paid_resource h config a.at a.elapsed a.request a.kind

  -- The worlds that requests leave, one after the other.
  unfoldable pub serve : List Arrival → World → World
  serve [] w = w
  serve (a ∷ rest) w = serve rest (answer a w).1

  answer-Grows : (a : Arrival) (w : World) → Grows w.store (answer a w).1.store
  answer-Grows a w =
      ((handle-Moves "" any_log h (λ _ _. record { at = λ _. tt }) config a.at a.elapsed a.request
          a.kind).at
        w).store

  serve-Grows : (as_ : List Arrival) (w : World) → Grows w.store (serve as_ w).store
  unfolding serve
  serve-Grows [] w = Grows-order.reflexive w.store
  serve-Grows (a ∷ rest) w =
      Grows-order.transitive w.store (answer a w).1.store (serve rest (answer a w).1).store
        (answer-Grows a w) (serve-Grows rest (answer a w).1)

  -- The settlement that paid for a response.
  record HasSettlement (r : Response) (w : World) : Type 0 where
    pub id : String
    pub digest : String
    pub bytes : ℕ
    pub ledger : OnLedger payment_network (reference_text r.settled_transaction) id w.store.payments
    pub kept : IsOnRecord id digest bytes w.store.payments
    pub response_digest : r.response_digest ≡ some digest

  IsServed-HasSettlement :
      (a : Arrival) (v w : World) (r : Response)
      → IsServed h config a.request a.kind r v w
      → HasSettlement r w
  IsServed-HasSettlement a v w r s =
      let paid = s.paid_for in
      let made = paid.fulfilled in
      let network : (receipt_of paid.o).network ≡ payment_network =
        process-network h.payment paid.requirement h.facilitator paid.input v.asked paid.o
          paid.processed
        ∙ build-network h.payment _ _ _ _ paid.requirement paid.built in
      record {
        id = made.claim_id;
        digest = made.resource.response_digest;
        bytes = made.resource.response_bytes;
        ledger =
            subst
              (λ (n : String).
                OnLedger n (reference_text r.settled_transaction) made.claim_id w.store.payments)
              network
              (subst
                (λ (x : Response).
                  OnLedger (receipt_of paid.o).network (reference_text x.settled_transaction)
                    made.claim_id w.store.payments)
                (sym made.response) made.ledger);
        kept = made.delivered.record_kept;
        response_digest = ap (λ (x : Response). x.response_digest) made.response;
      }

  -- After a request was answered by 200, and whatever requests followed, a later request that is
  -- answered by 200 for the same settled transaction gets a response with the same digest.
  pub handle-same_digest :
      (a : Arrival) (w : World) (r : Response) (between : List Arrival) (a' : Arrival)
      (r' : Response)
      → (answer a w).0 ≡ ok r
      → r.status ≡ 200
      → (answer a' (serve between (answer a w).1)).0 ≡ ok r'
      → r'.status ≡ 200
      → r.settled_transaction ≡ r'.settled_transaction
      → r.response_digest ≡ r'.response_digest
  handle-same_digest a w r between a' r' e good e' good' same =
      let first = (answer a w).1 in
      let later = serve between first in
      let last = (answer a' later).1 in
      let x =
        IsServed-HasSettlement a w first r
          (handle-IsServed h config a.at a.elapsed a.request a.kind w r e good) in
      let y =
        IsServed-HasSettlement a' later last r'
          (handle-IsServed h config a'.at a'.elapsed a'.request a'.kind later r' e' good') in
      let grows : Grows first.store last.store =
        Grows-order.transitive first.store later.store last.store (serve-Grows between first)
          (answer-Grows a' later) in
      let one : x.id ≡ y.id =
        OnLedger-unique payment_network (reference_text r.settled_transaction) x.id y.id first.store
          last.store grows x.ledger (rw same y.ledger) in
      let digests =
        (on_record_unique x.id x.digest y.digest x.bytes y.bytes first.store last.store grows x.kept
          (rw one y.kept)).0 in
      x.response_digest ∙ ap some digests ∙ sym y.response_digest
