-- ===== src/Web3/Sent.antt =====
-- The transactions among the requests that have been sent.
use mathlib.Core.List.{append-nil, append_assoc}
use parity_bridge.Base.{ℕ, ◌≡◌, ◌∙◌, List, [], ◌∷◌, ◌++◌}
use parity_bridge.Web3.{
  Web3, Chain, Net, Request, TransactionRequest, call, send_transaction, block_number, logs,
  transaction_receipt, sign, request,
}

abbrev pub transaction_of : Chain → Request → List (Chain × TransactionRequest)
transaction_of c (send_transaction t) = (c, t) ∷ []
transaction_of c (call _) = []
transaction_of c block_number = []
transaction_of c (logs _) = []
transaction_of c (transaction_receipt _) = []
transaction_of c (sign _ _) = []

-- The transactions in a list of requests, each with its chain.
abbrev pub transactions : List (Chain × Request) → List (Chain × TransactionRequest)
transactions [] = []
transactions ((c, r) ∷ sent) = transaction_of c r ++ transactions sent

transactions-append :
    (xs : List (Chain × Request)) (c : Chain) (r : Request)
    → transactions (xs ++ (c, r) ∷ []) ≡ transactions xs ++ transaction_of c r
transactions-append [] c r = append-nil (transaction_of c r)
transactions-append ((d, q) ∷ xs) c r = simp (transactions-append xs c r, append_assoc)

module _ (w : Web3) where
  pub request-transactions :
      (c : Chain) (r : Request) (timeout : ℕ) (net : Net w.World)
      → transactions (request w c r timeout net).1.sent
        ≡ transactions net.sent ++ transaction_of c r
  unfolding request
  request-transactions c r timeout net = transactions-append net.sent c r

  -- A request that is no transaction adds none.
  pub request-quiet :
      (c : Chain) (r : Request) (timeout : ℕ) (net : Net w.World)
      → transaction_of c r ≡ []
      → transactions (request w c r timeout net).1.sent ≡ transactions net.sent
  request-quiet c r timeout net e =
      request-transactions c r timeout net ∙ rw e (append-nil (transactions net.sent))
