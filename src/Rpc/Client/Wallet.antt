-- ===== src/Rpc/Client/Wallet.antt =====
-- `create_wallet` of pool/src/rpc.rs on a node that keeps wallets.
use mining_pool.Base.{codes, ◌≡◌, ◌⊎◌, true, false, some}
use mining_pool.Bitcoin.{Bytes}
use mining_pool.Rpc.Json.{Json, null, text, array, item, nil, get, is_null, contains}
use mining_pool.Rpc.Client.{RpcClient, Request, Answer, response, request_body, Node, one}

module _ {S : Type 0} (post : Node S) (client : RpcClient) (display : Json → Bytes) where
  -- A request of the client for a method with a wallet's name.
  pub record Asks (method name : Bytes) (request : Request) : Type 0 where
    pub to_wallet : request.to ≡ client
    pub method_named : get (codes "method") request.body ≡ some (text method)
    pub params_named : get (codes "params") request.body ≡ some (array (item (text name) nil))

  -- The reply has a result and null for error, and then the call was done, or it has an error that says so.
  abbrev pub SaysOr : Bytes → Answer → Type 0 → Type 0 → Type 0
  SaysOr said reply Done Known =
      (json : Json) × (reply ≡ response json)
      × (((v : Json) × (get (codes "error") json ≡ some null)
            × (get (codes "result") json ≡ some v)
            × Done)
          ⊎ ((error : Json) × (get (codes "error") json ≡ some error)
              × (is_null error ≡ false)
              × (contains (display error) said ≡ true)
              × Known))

  -- What the pool relies on: a node that is asked to create a wallet creates and loads it, or says that it already
  -- exists; asked to load a wallet it loads it, or says that it is already loaded, which it then is.
  pub record KeepsWallets (Loaded : S → Bytes → Type 0) : Type 0 where
    pub creates :
        (name : Bytes) (request : Request) (s : S)
        → Asks (codes "createwallet") name request
        → SaysOr
            (codes "already exists")
            (post request s).0
            (Loaded (post request s).1 name)
            (Unit {0})
    pub loads :
        (name : Bytes) (request : Request) (s : S)
        → Asks (codes "loadwallet") name request
        → SaysOr
            (codes "already loaded")
            (post request s).0
            (Loaded (post request s).1 name)
            (Loaded (post request s).1 name)

  request_of : Bytes → Bytes → Request
  request_of method name = record { to = client; body = request_body method (one (text name)) }
