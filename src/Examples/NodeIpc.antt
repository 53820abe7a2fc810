-- ===== src/Examples/NodeIpc.antt =====
-- The theorems on pool/src/node_ipc.rs at a concrete node.
use mining_pool.Base.{
  ℕ, ◌^◌, ◌≡◌, refl, true, false, none, some, List, [], ◌∷◌, ◌++◌, arith, ltb, if◌then◌else◌,
  length, replicate,
}
use mining_pool.Words.{le_bytes}
use mining_pool.Bitcoin.{Bytes, TxIn, Transaction, BlockHeader}
use mining_pool.Jobs.Coinbase.{script_from_address}
use mining_pool.Jobs.Tdp.{build_sv2_coinbase_from_tdp}
use mining_pool.Jobs.Tdp.Format.{read_coinbase}
use mining_pool.Jobs.Varint.{write_varint}
use mining_pool.NodeIpc.Template.{RawTemplate, SubmitSolutionData}
use mining_pool.NodeIpc.Build.{
  NodeLib, BlockClient, ready, raw_template, build_raw_template, fetch_template, empty_outputs,
  serialized_outputs, hashes_fit,
}
use mining_pool.NodeIpc.Build.Laws.{IsCheckedSum, sum}
use mining_pool.NodeIpc.Loop.{
  IpcEvent, Progress, left, wait_timed_out, next_block, solution, accepted, ipc_main, run_loop,
  turn, destroy_block_client, submit_solution,
}
use mining_pool.NodeIpc.Loop.Serves.{Served, ipc_main-Served}
use mining_pool.NodeIpc.Loop.Blocks.{Accounted, received, solutions, ipc_main-Accounted}
use mining_pool.Stratum.Protocol.{SubmitSharesExtended}
use mining_pool.Stratum.State.{ChannelInfo, done}
use mining_pool.Stratum.Job.{JobMessages, build_job_messages, messages_of, parts_of}
use mining_pool.Stratum.Job.Node.{
  IsNodeCoinbase, paid_wire, paid_outputs, values, share_coinbase_pays_all,
}
use mining_pool.Stratum.Submit.{share_coinbase}
use mining_pool.Examples.Fixtures.{toy_lib}

-- The node's coinbase: a subsidy output, and a commitment without value.
abbrev node_input : TxIn
node_input = record {
  previous_output = toy_lib.null_outpoint;
  script_sig = 3 ∷ 1 ∷ 0 ∷ [];
  sequence = 9;
  witness = [];
}

abbrev node_coinbase : Transaction
node_coinbase = record {
  version = 2;
  lock_time = 7;
  input = node_input ∷ [];
  output =
      record { value = 5000; script_pubkey = 81 ∷ [] }
      ∷ record { value = 0; script_pubkey = 106 ∷ 36 ∷ [] }
      ∷ [];
}

-- Headers and hashes are told apart by their first byte.
abbrev header_at : ℕ → BlockHeader
header_at time = record {
  version = 0x2000_0000;
  prev_blockhash = replicate 32 8;
  merkle_root = replicate 32 0;
  time = time;
  bits = 0x0300_0064;
  nonce = 0;
}

abbrev pub toy_node : NodeLib
toy_node = record {
  read_header = λ bytes. some (header_at (length bytes));
  read_tx = λ bytes. some node_coinbase;
  checked_sum = λ ns. if ltb (sum ns) (2 ^ 64) then some (sum ns) else none;
  target_le_bytes = λ bits. replicate 32 0;
}

toy_node-IsCheckedSum : IsCheckedSum toy_node
toy_node-IsCheckedSum ns = refl

node_coinbase-IsNodeCoinbase : IsNodeCoinbase node_coinbase
node_coinbase-IsNodeCoinbase = record {
  version = omega arith;
  outputs = omega arith;
  inputs = ((omega arith, omega arith), tt);
}

abbrev path : List Bytes
path = replicate 32 1 ∷ []

abbrev fetched : RawTemplate
fetched = raw_template toy_lib toy_node 4 (header_at 1700) node_coinbase path node_input 5000

abbrev channel : ChannelInfo
channel = record {
  channel_id = 0;
  extranonce_prefix = le_bytes 32 0;
  miner_address = b'b' ∷ b'c' ∷ [];
  current_job = none;
  channel_target_be = replicate 32 1;
}

abbrev job : JobMessages
job = messages_of toy_lib channel 1 fetched (parts_of toy_lib fetched (0 ∷ 20 ∷ b'b' ∷ b'c' ∷ []))

abbrev share : SubmitSharesExtended
share = record {
  channel_id = 0;
  sequence_number = 1;
  job_id = 1;
  nonce = 5;
  ntime = 1701;
  version = 0x2000_0000;
  extranonce = 1 ∷ 2 ∷ 3 ∷ 4 ∷ [];
}

fetched_from_node :
    build_raw_template toy_lib toy_node 4 (header_at 1700) node_coinbase path ≡ ready fetched
unfolding build_raw_template hashes_fit serialized_outputs empty_outputs
fetched_from_node = refl

job_built : build_job_messages toy_lib channel 1 fetched ≡ done job
unfolding build_job_messages script_from_address parts_of messages_of build_sv2_coinbase_from_tdp
    write_varint raw_template serialized_outputs empty_outputs
job_built = refl

share_coinbase_pays_all_example :
    (input : TxIn) × (rest : List TxIn) × (script : Bytes) × (node_coinbase.input ≡ input ∷ rest)
    × (script_from_address toy_lib channel.miner_address ≡ some script)
    × (read_coinbase (share_coinbase channel job.info share)
        ≡ some (
            paid_wire toy_lib toy_node node_coinbase input script
              (le_bytes 32 0 ++ (1 ∷ 2 ∷ 3 ∷ 4 ∷ []))))
    × (values (paid_outputs toy_lib toy_node node_coinbase script) ≡ values node_coinbase.output)
share_coinbase_pays_all_example =
    share_coinbase_pays_all toy_lib toy_node 4 (header_at 1700) node_coinbase path fetched channel 1
      job share toy_node-IsCheckedSum node_coinbase-IsNodeCoinbase fetched_from_node job_built refl
      refl

abbrev pub block_with : ℕ → BlockClient
block_with handle = record {
  handle = handle;
  get_block_header = some (handle ∷ []);
  get_coinbase_tx = some [];
  get_coinbase_merkle_path = some path;
}

abbrev pub found : SubmitSolutionData
found = record {
  template_id = 0;
  version = 1;
  header_timestamp = 2;
  header_nonce = 3;
  coinbase_tx = [];
}

-- A solution after a timeout, a second block with one more solution, and a third when nothing listens.
abbrev events : List IpcEvent
events =
    wait_timed_out
    ∷ solution found accepted
    ∷ next_block (block_with 21) true
    ∷ solution found accepted
    ∷ next_block (block_with 22) false
    ∷ []

abbrev pub raw_of : ℕ → RawTemplate
raw_of k = raw_template toy_lib toy_node k (header_at 1) node_coinbase path node_input 5000

abbrev ended : Progress
ended = left (record {
  block = block_with 22;
  template_id = 3;
  published = raw_of 0 ∷ raw_of 1 ∷ [];
  destroyed = 20 ∷ 21 ∷ 22 ∷ [];
  submitted = (20, found) ∷ (21, found) ∷ [];
})

run_ended : ipc_main toy_lib toy_node (some (block_with 20)) events ≡ some ended
unfolding ipc_main run_loop turn destroy_block_client submit_solution fetch_template
    build_raw_template hashes_fit serialized_outputs empty_outputs raw_template
run_ended = refl

ipc_main-Served_example : Served toy_lib toy_node ended
ipc_main-Served_example =
    ipc_main-Served toy_lib toy_node (block_with 20) events ended run_ended (omega arith)

ipc_main-Accounted_example : Accounted ended (20 ∷ received events) (solutions events)
ipc_main-Accounted_example =
    ipc_main-Accounted toy_lib toy_node (block_with 20) events ended run_ended
