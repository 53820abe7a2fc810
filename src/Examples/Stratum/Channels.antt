-- ===== src/Examples/Stratum/Channels.antt =====
-- The theorems on opening channels and on broadcasts of pool/src/stratum_sv2.rs at a concrete connection.
use mining_pool.Base.{ℕ, ◌*◌, ◌/◌, ◌^◌, ◌≤◌, ◌≡◌, refl, some, [], ◌∷◌, ◌++◌, arith, reverse}
use mining_pool.Base.Int.{pos}
use mining_pool.Words.{be_value, le_value, le_bytes, lex_lt}
use mining_pool.Bitcoin.{Bytes}
use mining_pool.Jobs.Coinbase.{script_from_address}
use mining_pool.Jobs.Tdp.{build_sv2_coinbase_from_tdp}
use mining_pool.Jobs.Varint.{write_varint}
use mining_pool.Stratum.Protocol.{OpenExtendedMiningChannel}
use mining_pool.Stratum.State.{ChannelInfo, ConnectionState, World, ok, ◌>>◌, get, keys}
use mining_pool.Stratum.State.Channels.{with_job}
use mining_pool.Stratum.Target.{
  compact_to_target_be, hashrate_to_target_be, channel_difficulty, target_be_to_sv2, div_loop,
}
use mining_pool.Stratum.Target.Compact.{compact_value}
use mining_pool.Stratum.Job.{JobMessages, build_job_messages, messages_of, parts_of}
use mining_pool.Stratum.Open.{initial_target, handle_open_extended_mining_channel, new_channel}
use mining_pool.Stratum.Open.Share.{larger, initial_target_lem}
use mining_pool.Stratum.Open.Opens.{
  channel_of, answers, opened, handle_open_extended_mining_channel_lem,
}
use mining_pool.Stratum.Submit.{share_coinbase, share_header, handle_submit_shares_extended}
use mining_pool.Stratum.Connection.Mining.{success_for, share_accepted}
use mining_pool.Stratum.Address.{parse_miner_address}
use mining_pool.Stratum.Broadcast.{send_jobs_to_all_channels}
use mining_pool.Stratum.Broadcast.Delivers.{
  with_jobs, job_messages, delivered, send_jobs_to_all_channels_lem,
}
use mining_pool.Examples.Fixtures.{toy_lib, toy_floats, toy_codec, toy_lib-IsHex, toy_lib-IsHash}
use mining_pool.Examples.Stratum.Helpers.{difficulty_30}
use mining_pool.Examples.Stratum.{
  alice, pool, template, channel_for, fresh, world_in, payload_of, share_of,
}

-- The target of a channel of 2^32 hashes a second under the compact bits 0x03000064, as it is sent.
abbrev target_30 : Bytes
target_30 = reverse (initial_target toy_floats (2 ^ 32) 0x0300_0064)

initial_target_lem_example :
    (be_value (initial_target toy_floats (2 ^ 32) 0x0300_0064)
      ≡ larger
          (0xffff * 2 ^ 208 / channel_difficulty toy_floats (2 ^ 32))
          (compact_value 0x0300_0064))
    × (le_value target_30 ≡ be_value (initial_target toy_floats (2 ^ 32) 0x0300_0064))
    × (compact_value 0x0300_0064 ≤ be_value (initial_target toy_floats (2 ^ 32) 0x0300_0064))
unfolding target_be_to_sv2 initial_target lex_lt hashrate_to_target_be div_loop compact_to_target_be
    channel_difficulty
initial_target_lem_example =
    initial_target_lem toy_lib toy_floats (2 ^ 32) 0x0300_0064 target_30
      (omega (arith, difficulty_30)) (omega (arith, difficulty_30)) refl

abbrev payload : Bytes
payload = 7 ∷ 100 ∷ alice

abbrev request : OpenExtendedMiningChannel ℕ
request = record { request_id = 7; user_identity = alice; nominal_hash_rate = 100 }

-- The channel that the request opens, and its first job.
abbrev channel : ChannelInfo
channel = channel_of toy_lib toy_floats toy_codec template request (world_in fresh)

abbrev first_job : JobMessages
first_job = messages_of toy_lib channel 1 template (parts_of toy_lib template (0 ∷ 20 ∷ alice))

handle_open_extended_mining_channel_lem_example :
    (handle_open_extended_mining_channel toy_lib toy_floats toy_codec payload template
        (pos 9)
        (world_in fresh)
      ≡ ok tt (
          opened toy_lib toy_floats toy_codec request channel
            (reverse channel.channel_target_be)
            first_job
            (pos 9)
            (world_in fresh)))
    × (get 0
          (opened toy_lib toy_floats toy_codec request channel
            (reverse channel.channel_target_be)
            first_job
            (pos 9)
            (world_in fresh)).state.channels
        ≡ some (with_job first_job.info channel))
unfolding target_be_to_sv2 build_job_messages script_from_address parts_of messages_of new_channel
    build_sv2_coinbase_from_tdp write_varint parse_miner_address initial_target lex_lt
    hashrate_to_target_be div_loop compact_to_target_be channel_difficulty
handle_open_extended_mining_channel_lem_example =
    handle_open_extended_mining_channel_lem toy_lib toy_floats toy_codec payload template (pos 9)
      request (world_in fresh) (reverse channel.channel_target_be) first_job refl refl refl refl

-- Two channels without a job.
abbrev two_channels : ConnectionState
two_channels = record {
  next_channel_id = 2;
  next_job_id = 3;
  channels = (0, channel_for 1000) ∷ (1, record (channel_for 50) { channel_id = 1 }) ∷ [];
  pool_address = pool;
}

abbrev jobs_of : ChannelInfo → JobMessages
jobs_of c = messages_of toy_lib c 2 template (parts_of toy_lib template (0 ∷ 20 ∷ alice))

send_jobs_to_all_channels_lem_example :
    send_jobs_to_all_channels toy_lib template 2 (world_in two_channels)
    ≡ ok tt (
        delivered
          (world_in two_channels)
          (with_jobs jobs_of two_channels.channels)
          ([] ++ job_messages jobs_of two_channels.channels))
unfolding keys build_job_messages script_from_address parts_of messages_of
    build_sv2_coinbase_from_tdp write_varint
send_jobs_to_all_channels_lem_example =
    send_jobs_to_all_channels_lem toy_lib template 2 jobs_of (world_in two_channels)
      ((λ e. ground arith, tt), (tt, tt)) (refl, (refl, tt)) refl

abbrev txid_first : Bytes
txid_first = le_bytes 32 (le_value (share_coinbase channel first_job.info (share_of 60)))

-- The world in which the channel is open.
abbrev channel_open : World ℕ
channel_open =
    opened toy_lib toy_floats toy_codec request channel (reverse channel.channel_target_be)
      first_job (pos 9) (world_in fresh)

meets_target :
    le_value (toy_lib.block_hash (share_header toy_lib first_job.info (share_of 60) txid_first))
    ≤ be_value channel.channel_target_be
unfolding new_channel initial_target lex_lt hashrate_to_target_be div_loop compact_to_target_be
    channel_difficulty share_header
meets_target = omega arith

share_accepted_example :
    (w' : World ℕ) × ((handle_open_extended_mining_channel toy_lib toy_floats toy_codec payload
            template
            (pos 9)
          >> handle_submit_shares_extended toy_lib toy_floats toy_codec (payload_of 60))
        (world_in fresh)
      ≡ ok tt w')
    × (w'.sent
        ≡ ([]
            ++ answers toy_lib toy_floats toy_codec request channel
                (reverse channel.channel_target_be)
                first_job)
          ++ (success_for (share_of 60) ∷ []))
    × (w'.state ≡ channel_open.state)
unfolding target_be_to_sv2 build_job_messages script_from_address parts_of messages_of new_channel
    build_sv2_coinbase_from_tdp write_varint parse_miner_address initial_target lex_lt
    hashrate_to_target_be div_loop compact_to_target_be channel_difficulty share_coinbase
share_accepted_example =
    share_accepted toy_lib toy_floats toy_codec toy_lib-IsHex toy_lib-IsHash payload (payload_of 60)
      template (pos 9) request (world_in fresh) (reverse channel.channel_target_be) txid_first
      first_job (share_of 60) refl refl refl refl refl refl refl refl meets_target
