-- ===== src/SideToMainSign/Requests.antt =====
-- The exchange that `SideToMainSign` holds with the side contract and the node (bridge/src/side_to_main_sign.rs).
use parity_bridge.Base.{ℕ, ◌≡◌, Bool, false, List, [], ◌∷◌, ◌++◌}
use parity_bridge.Base.Bytes.{Bytes}
use parity_bridge.Async.{ready}
use parity_bridge.Error.{ok}
use parity_bridge.Web3.{Web3, Chain, Request, Net, sign, send_transaction, request, await}
use parity_bridge.Contracts.{Contracts}
use parity_bridge.Helpers.{AsyncCall, transaction_request, poll_call}
use parity_bridge.Message as Message
use parity_bridge.Message.{BigEndian}
use parity_bridge.Signature as Signature
use parity_bridge.Signature.{Signature}
use parity_bridge.SideToMainSign.{
  State, await_check_already_signed, await_signature, await_transaction, SideToMainSign,
}

abbrev pub stage : {w : Web3} → State w → ℕ
stage (await_check_already_signed _) = 0
stage (await_signature _) = 1
stage (await_transaction _) = 2

module _ (w : Web3) (be : BigEndian) (abi : Contracts w.Fault) where
  open w use {World, Fault, Waiting, poll_bytes}

  -- The request for a signature of the message by the authority.
  unfoldable pub sign_request : SideToMainSign w → Chain × Request
  sign_request s = (s.side.transport, sign s.side.authority_address (Message.to_bytes be s.message))

  -- The call of `submitSignature` on the side contract.
  unfoldable pub submit_request : SideToMainSign w → Signature → Chain × Request
  submit_request s signature = (
    s.side.transport,
    send_transaction (
        transaction_request w s.side.contract_address s.side.authority_address
          s.side.sign_side_to_main_gas s.side.sign_side_to_main_gas_price
          (abi.submit_signature_input (Signature.to_bytes signature)
            (Message.to_bytes be s.message))),
  )

  -- Sends a request under the time limit of the side contract.
  abbrev pub sent_by : SideToMainSign w → Chain × Request → Net World → Waiting × Net World
  sent_by s (chain, r) around = request w chain r s.side.request_timeout around

  -- The exchange of a poll that begins with `s` and `net`: the states that it comes to, what is
  -- around it then, and the requests that it has sent. Every answer is that of the future which the
  -- state before holds, at that moment.
  pub data Reaches (s : SideToMainSign w) (net : Net World)
      : State w → Net World → List (Chain × Request) → Type 0 where
    begun : Reaches s net s.state net []
    -- the contract has answered that the authority has not signed
    then_sign :
        {l : List (Chain × Request)} (f : AsyncCall w Bool) (around : Net World)
        → Reaches s net (await_check_already_signed f) around l
        → (poll_call w f around).0 ≡ ready false
        → Reaches s net
            (await_signature (sent_by s (sign_request s) (poll_call w f around).2).0)
            (sent_by s (sign_request s) (poll_call w f around).2).1
            (l ++ (sign_request s) ∷ [])
    -- the node has answered with the bytes of the signature
    then_submit :
        {l : List (Chain × Request)} (f : Waiting) (around : Net World) (bytes : Bytes)
        (signature : Signature)
        → Reaches s net (await_signature f) around l
        → (await w poll_bytes f around).0 ≡ ready bytes
        → Signature.from_bytes {X = Fault} bytes ≡ ok signature
        → Reaches s net
            (await_transaction (record {
              future = (sent_by s (submit_request s signature) (await w poll_bytes f around).2).0;
            }))
            (sent_by s (submit_request s signature) (await w poll_bytes f around).2).1
            (l ++ (submit_request s signature) ∷ [])
