-- ===== src/Config.antt =====
-- pool/src/config.rs: the configuration from the environment. Texts are lists of bytes.
use mining_pool.Base.{codes, Option, none, some, length, ◌==◌, if◌then◌else◌}
use mining_pool.Bitcoin.{Bytes, BitcoinLib}

-- The type of socket addresses is a parameter.
pub record Config (SocketAddr : Type 0) : Type 0 where
  pub rpc_url : Bytes
  pub rpc_user : Bytes
  pub rpc_pass : Bytes
  pub sv2_listen_addr : SocketAddr
  pub pool_address : Bytes
  pub pool_authority_public_key : Bytes
  pub pool_authority_private_key : Bytes
  pub bitcoin_ipc_socket : Bytes

pub data ConfigError : Type 0 where
  not_set not_hex not_32_bytes : (var : Bytes) → ConfigError
  not_an_address : ConfigError

pub data Configured (A : Type 0) : Type 0 where
  configured : A → Configured A
  misconfigured : ConfigError → Configured A

infixl 5 ◌>>=◌
abbrev ◌>>=◌ : {A B : Type 0} → Configured A → (A → Configured B) → Configured B
configured a >>= f = f a
misconfigured e >>= f = misconfigured e

abbrev unwrap_or : Option Bytes → Bytes → Bytes
unwrap_or none default_text = default_text
unwrap_or (some t) default_text = t

-- `env` is the environment, and `parse_addr` parses a socket address.
module _ {SocketAddr : Type 0} (lib : BitcoinLib) (env : Bytes → Option Bytes)
    (parse_addr : Bytes → Option SocketAddr) where
  required : Bytes → Configured Bytes
  required var = elim (env var) [ none ↦ misconfigured (not_set var) | some t ↦ configured t ]

  decoded_key : Bytes → Option Bytes → Configured Bytes
  decoded_key var none = misconfigured (not_hex var)
  decoded_key var (some bytes) =
      if length bytes == 32 then configured bytes else misconfigured (not_32_bytes var)

  unfoldable pub parse_key32 : Bytes → Configured Bytes
  unfolding required decoded_key
  parse_key32 var = do hex ← required var; decoded_key var (lib.hex_decode hex)

  listen_addr : Configured SocketAddr
  listen_addr =
      elim (parse_addr (unwrap_or (env (codes "SV2_LISTEN_ADDR")) (codes "0.0.0.0:3333"))) [
        | none ↦ misconfigured not_an_address
        | some addr ↦ configured addr
      ]

  -- The fields in the order in which the code reads them.
  unfoldable pub from_env : Configured (Config SocketAddr)
  unfolding required listen_addr
  from_env = do
    rpc_user ← required (codes "RPC_USER")
    rpc_pass ← required (codes "RPC_PASS")
    sv2_listen_addr ← listen_addr
    pool_address ← required (codes "POOL_ADDRESS")
    public_key ← parse_key32 (codes "POOL_AUTHORITY_PUBLIC_KEY")
    private_key ← parse_key32 (codes "POOL_AUTHORITY_PRIVATE_KEY")
    configured (record {
      rpc_url = unwrap_or (env (codes "RPC_URL")) (codes "http://127.0.0.1:18443");
      rpc_user = rpc_user;
      rpc_pass = rpc_pass;
      sv2_listen_addr = sv2_listen_addr;
      pool_address = pool_address;
      pool_authority_public_key = public_key;
      pool_authority_private_key = private_key;
      bitcoin_ipc_socket =
          unwrap_or (env (codes "BITCOIN_IPC_SOCKET")) (codes ".bitcoin-data/regtest/node.sock");
    })
