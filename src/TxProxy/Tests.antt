-- ===== src/TxProxy/Tests.antt =====
-- A transaction to an entry point, with a condition of cost 3, and one with a cost beyond the maximum.
use infra.TxProxy.Forwarded.{IsAdmitted, send_raw-Sends}
use infra.Base.{ℕ, ◌≡◌, ◌⊎◌, refl, true, some, [], ◌∷◌}
use infra.TxProxy.{Chain, max_cost_exceeded, Service, send_raw_transaction_conditional}

-- Conditions are their cost.
abbrev chain : Chain ℕ ℕ ℕ
chain = record {
  unmarshal = λ b. some 1;
  to = λ t. some "0xentry";
  hash = λ t. "0xhash";
  cost = λ c. c;
  is_valid = λ c. true;
  max_cost = 5;
  wait = λ n l. (true, l);
  call = λ b c. true;
}

abbrev idle : Service ℕ ℕ
idle = record { limiter = 0; requests = 0; failures = []; sent = [] }

sent_lem :
    (send_raw_transaction_conditional chain true ("0xentry" ∷ []) (9 ∷ []) 3 idle).1.sent
    ≡ (9 ∷ [], 3) ∷ []
unfolding send_raw_transaction_conditional
sent_lem = refl

too_dear_lem :
    (send_raw_transaction_conditional chain true ("0xentry" ∷ []) (9 ∷ []) 6 idle).0
    ≡ some max_cost_exceeded
unfolding send_raw_transaction_conditional
too_dear_lem = refl

send_raw-Sends_example :
    ((send_raw_transaction_conditional chain true ("0xentry" ∷ []) (9 ∷ []) 3 idle).1.sent
      ≡ idle.sent)
    ⊎ (((send_raw_transaction_conditional chain true ("0xentry" ∷ []) (9 ∷ []) 3 idle).1.sent
          ≡ (9 ∷ [], 3) ∷ idle.sent)
        × (true ≡ true)
        × IsAdmitted chain true ("0xentry" ∷ []) (9 ∷ []) 3 idle.limiter)
send_raw-Sends_example = send_raw-Sends chain true ("0xentry" ∷ []) (9 ∷ []) 3 idle
