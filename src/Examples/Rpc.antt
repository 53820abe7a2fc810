-- ===== src/Examples/Rpc.antt =====
-- The client of pool/src/rpc.rs on a node with one wallet, and tests of pool/src/config.rs.
use mining_pool.Base.{
  codes, ℕ, ◌≡◌, refl, Bool, true, false, Option, none, some, [], list_eq, if◌then◌else◌, replicate,
}
use mining_pool.Base.Int.{pos}
use mining_pool.Bitcoin.{Bytes}
use mining_pool.Rpc.Json.{Json, null, integer, text, object, end, field, get, is_null, as_u64}
use mining_pool.Rpc.Client.{
  RpcClient, Answer, response, Node, returned, with_wallet, trim_end_slashes, request_body,
  error_of, result_of, do_call, get_block_count,
}
use mining_pool.Config.{configured, misconfigured, not_32_bytes, parse_key32}
use mining_pool.Examples.Fixtures.{toy_lib}

-- Whether the wallet exists, and whether it is loaded.
abbrev Wallet : Type 0
Wallet = Bool × Bool

abbrev failing : Bytes → Json
failing said = object (field (codes "result") null (field (codes "error") (text said) end))

abbrev working : Json → Json
working result = object (field (codes "result") result (field (codes "error") null end))

abbrev created_by : Wallet → Answer × Wallet
created_by (true, loaded) = (response (failing (codes "Database already exists.")), (true, loaded))
created_by (false, loaded) = (response (working (object end)), (true, true))

abbrev loaded_by : Wallet → Answer × Wallet
loaded_by (exists, true) = (response (failing (codes "Wallet is already loaded.")), (exists, true))
loaded_by (exists, false) = (response (working (object end)), (exists, true))

abbrev is_method : Bytes → Json → Bool
is_method name body = elim (get (codes "method") body) [
  | none ↦ false
  | some (text m) ↦ list_eq m name
  | some _ ↦ false
]

abbrev toy_node : Node Wallet
toy_node request s =
    if is_method (codes "createwallet") request.body
    then created_by s
    else if is_method (codes "loadwallet") request.body
    then loaded_by s
    else (response (working (object (field (codes "blocks") (integer (pos 4294967299)) end))), s)

abbrev client : RpcClient
client = record { url = codes "http://node"; user = []; pass = [] }

abbrev toy_display : Json → Bytes
toy_display (text t) = t
toy_display _ = []

abbrev IsLoaded : Wallet → Bytes → Type 0
IsLoaded s name = s.1 ≡ true

-- The count of blocks is cut to 32 bits.
block_count_cut : (get_block_count toy_node client (true, true)).0 ≡ returned 3
unfolding get_block_count do_call result_of error_of get is_null request_body as_u64
block_count_cut = refl

wallet_url :
    (with_wallet (codes "http://node//") [] [] (codes "w")).url ≡ codes "http://node/wallet/w"
unfolding with_wallet trim_end_slashes
wallet_url = refl

abbrev key_of : ℕ → Bytes → Option Bytes
key_of n var = some (replicate n b'0')

key_read :
    (parse_key32 {SocketAddr = ℕ} toy_lib (key_of 64) (λ t. none) (codes "KEY")
      ≡ configured (replicate 32 0))
    × (parse_key32 {SocketAddr = ℕ} toy_lib (key_of 62) (λ t. none) (codes "KEY")
        ≡ misconfigured (not_32_bytes (codes "KEY")))
unfolding parse_key32
key_read = (refl, refl)
