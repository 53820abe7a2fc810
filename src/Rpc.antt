-- ===== src/Rpc.antt =====
-- pool/src/rpc.rs: the block template that the node returns, and the checks made on it. A text field is
-- the list of its bytes.
pub mod Json
pub mod Client
use mining_pool.Base.{ℕ, Bool, true, false, not, ◌&&◌, Option, List, [], ◌∷◌, ltb, ◌==◌, length}
use mining_pool.Base.Int.{ℤ, pos, negsuc}
use mining_pool.Bitcoin.{Bytes}

pub record TemplateTransaction : Type 0 where
  pub raw : Bytes
  pub txid : Bytes
  pub hash : Bytes
  pub fee : ℤ
  pub weight : ℕ

pub record BlockTemplate : Type 0 where
  pub version : ℕ
  pub previousblockhash : Bytes
  pub transactions : List TemplateTransaction
  pub coinbasevalue : ℤ
  pub bits : Bytes
  pub height : ℕ
  pub curtime : ℕ
  pub target : Bytes
  pub default_witness_commitment : Option Bytes
  pub longpollid : Bytes

is_empty : Bytes → Bool
is_empty [] = true
is_empty (b ∷ bs) = false

nonneg : ℤ → Bool
nonneg (pos n) = true
nonneg (negsuc n) = false

positive : ℤ → Bool
positive (pos n) = ltb 0 n
positive (negsuc n) = false

-- The conjunction of the debug assertions: `false` is the panic of a debug build.
pub tx_assert_invariants : TemplateTransaction → Bool
unfolding is_empty nonneg
tx_assert_invariants tx =
    (length tx.txid == 64)
    && ((length tx.hash == 64) && (not (is_empty tx.raw) && (nonneg tx.fee && ltb 0 tx.weight)))

all_txs : List TemplateTransaction → Bool
unfolding tx_assert_invariants
all_txs [] = true
all_txs (tx ∷ txs) = tx_assert_invariants tx && all_txs txs

pub assert_invariants : BlockTemplate → Bool
unfolding is_empty positive all_txs
assert_invariants t =
    (length t.previousblockhash == 64)
    && ((length t.target == 64)
        && (not (is_empty t.bits)
            && (not (is_empty t.longpollid)
                && (positive t.coinbasevalue
                    && (ltb 0 t.curtime && (ltb 0 t.version && all_txs t.transactions))))))
