-- ===== src/Rpc/Client.antt =====
-- `RpcClient` of pool/src/rpc.rs. The node behind HTTP is a parameter: a request changes its state and has an answer.
pub mod Wallet
use mining_pool.Base.{
  codes, ℕ, ◌+◌, ◌%◌, ◌^◌, Bool, true, false, not, ◌&&◌, Option, none, some, List, [], ◌∷◌, ◌++◌,
  reverse, ◌==◌, if◌then◌else◌,
}
use mining_pool.Base.Int.{ℤ, pos}
use mining_pool.Bitcoin.{Bytes}
use mining_pool.Rpc.{BlockTemplate, assert_invariants}
use mining_pool.Rpc.Json.{
  Json, null, boolean, integer, decimal, text, array, object, nil, item, end, field, get, is_null,
  as_str, as_u64, text_list, contains,
}

pub record RpcClient : Type 0 where
  pub url : Bytes
  pub user : Bytes
  pub pass : Bytes

pub record Request : Type 0 where
  pub to : RpcClient
  pub body : Json

-- How a request ends: `send` failed, the response is not JSON, or it is.
pub data Answer : Type 0 where
  unreachable not_json : Answer
  response : Json → Answer

-- The node: its states, and what a request does.
abbrev pub Node : Type 0 → Type 0
Node S = Request → S → Answer × S

pub data RpcError : Type 0 where
  connect_failed invalid_json missing_result unparsable panicked : RpcError
  rpc_error : (method : Bytes) (err : Json) → RpcError
  rejected : Json → RpcError

pub data Returned (A : Type 0) : Type 0 where
  returned : A → Returned A
  raised : RpcError → Returned A

-- A call of the client.
abbrev pub Call : Type 0 → Type 0 → Type 0
Call S A = S → Returned A × S

trim_reversed : Bytes → Bytes
trim_reversed [] = []
trim_reversed (c ∷ cs) = if c == b'/' then trim_reversed cs else c ∷ cs

-- `url.trim_end_matches('/')`.
unfoldable pub trim_end_slashes : Bytes → Bytes
unfolding trim_reversed
trim_end_slashes url = reverse (trim_reversed (reverse url))

unfoldable pub with_wallet : Bytes → Bytes → Bytes → Bytes → RpcClient
with_wallet url user pass wallet = record {
  url = trim_end_slashes url ++ (codes "/wallet/" ++ wallet);
  user = user;
  pass = pass;
}

unfoldable pub request_body : Bytes → Json → Json
request_body method params = object (
    field (codes "jsonrpc") (text (codes "1.0")) (
      field (codes "id") (text (codes "pool"))
        (field (codes "method") (text method) (field (codes "params") params end))))

-- `json.get("error").filter(|e| !e.is_null())`.
unfoldable pub error_of : Json → Option Json
error_of json = elim (get (codes "error") json) [
  | none ↦ none
  | some err ↦ if is_null err then none else some err
]

unfoldable pub result_of : Bytes → Answer → Returned Json
result_of method unreachable = raised connect_failed
result_of method not_json = raised invalid_json
result_of method (response json) = elim (error_of json) [
  | some err ↦ raised (rpc_error method err)
  | none ↦ elim (get (codes "result") json) [
    | none ↦ raised missing_result
    | some result ↦ returned result
  ]
]

-- An `Option` with `context`.
abbrev pub require_some : {A : Type 0} → Option A → Returned A
require_some none = raised unparsable
require_some (some a) = returned a

-- The result through a function that may raise an error.
abbrev pub and_then : {A B : Type 0} → (A → Returned B) → Returned A → Returned B
and_then f (returned a) = f a
and_then f (raised e) = raised e

abbrev pub one : Json → Json
one value = array (item value nil)

abbrev pub two : Json → Json → Json
two value other = array (item value (item other nil))

module _ {S : Type 0} (post : Node S) (client : RpcClient) where
  unfoldable pub do_call : Bytes → Json → Call S Json
  do_call method params s =
      let (answer, s') = post (record { to = client; body = request_body method params }) s in
      (result_of method answer, s')

  abbrev pub call_then : {A : Type 0} → Bytes → Json → (Json → Returned A) → Call S A
  call_then method params f s =
      let (result, s') = do_call method params s in (and_then f result, s')

  -- A debug build; the parameter is serde's derived parser.
  unfoldable pub get_block_template : (Json → Option BlockTemplate) → Call S BlockTemplate
  get_block_template parse =
      call_then (codes "getblocktemplate")
        (one (object (field (codes "rules") (one (text (codes "segwit"))) end)))
        (λ result.
          and_then (λ t. if assert_invariants t then returned t else raised panicked)
            (require_some (parse result)))

  unfoldable pub submit_block : Bytes → Call S (Unit {0})
  submit_block block_hex =
      call_then (codes "submitblock") (one (text block_hex))
        (λ result. if is_null result then returned tt else raised (rejected result))

  unfoldable pub get_best_block_hash : Call S Bytes
  get_best_block_hash =
      call_then (codes "getbestblockhash") (array nil) (λ result. require_some (as_str result))

  unfoldable pub generate_to_address : ℕ → Bytes → Call S (List Bytes)
  generate_to_address n address =
      call_then (codes "generatetoaddress") (two (integer (pos n)) (text address))
        (λ result. require_some (text_list result))

  unfoldable pub get_new_address : Call S Bytes
  get_new_address =
      call_then (codes "getnewaddress") (array nil) (λ result. require_some (as_str result))

  unfoldable pub get_balances : Call S Json
  get_balances = call_then (codes "getbalances") (array nil) returned

  -- The amount is the text that serde_json gives it.
  unfoldable pub send_to_address : Bytes → Bytes → Call S Bytes
  send_to_address address amount_btc =
      call_then (codes "sendtoaddress") (two (text address) (decimal amount_btc))
        (λ result. require_some (as_str result))

  -- `n as u32` cuts the count.
  block_count : Option Json → Returned ℕ
  block_count none = raised unparsable
  block_count (some v) = and_then (λ n. returned (n % 2 ^ 32)) (require_some (as_u64 v))

  unfoldable pub get_block_count : Call S ℕ
  unfolding block_count
  get_block_count =
      call_then (codes "getblockchaininfo") (array nil)
        (λ result. block_count (get (codes "blocks") result))

  module _ (display : Json → Bytes) where
    -- `e.to_string()` of the errors of `call`; a JSON value in it is shown by serde_json.
    unfoldable pub to_string : RpcError → Bytes
    to_string connect_failed = codes "Failed to connect to Bitcoin node"
    to_string invalid_json = codes "RPC response is not valid JSON"
    to_string missing_result = codes "RPC response missing 'result' field"
    to_string (rpc_error method err) =
        codes "RPC error in " ++ (method ++ (codes ": " ++ display err))
    to_string unparsable = []
    to_string panicked = []
    to_string (rejected result) = []

    loaded : Returned Json → Returned (Unit {0})
    loaded (returned v) = returned tt
    loaded (raised e) =
        if contains (to_string e) (codes "already loaded") then returned tt else raised e

    load_wallet : Bytes → Call S (Unit {0})
    load_wallet name s =
        let (result, s') = do_call (codes "loadwallet") (one (text name)) s in (loaded result, s')

    created : Bytes → Returned Json → Call S (Unit {0})
    created name (returned v) s = (returned tt, s)
    created name (raised e) s =
        let msg : Bytes = to_string e in
        if not (contains msg (codes "already exists"))
          && not (contains msg (codes "Database already exists"))
        then (raised e, s)
        else load_wallet name s

    unfoldable pub create_wallet : Bytes → Call S (Unit {0})
    unfolding created load_wallet loaded
    create_wallet name s =
        let (result, s') = do_call (codes "createwallet") (one (text name)) s in
        created name result s'
