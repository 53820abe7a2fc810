-- ===== src/Stratum/Fair.antt =====
-- What a connection of pool/src/stratum_sv2.rs may hold, hand to the node and report to the database, given the
-- templates that were offered to it and the events that it met, each with the state before it.
pub mod Mono
use mining_pool.Base.{ℕ, ◌≤◌, ◌≡◌, ◌∙◌, sym, ap, Option, none, some, List, reverse, All}
use mining_pool.Base.Int.{ℤ, pos}
use mining_pool.Words.{be_value, le_value}
use mining_pool.Bitcoin.{Bytes, BitcoinLib, Floats}
use mining_pool.NodeIpc.Template.{RawTemplate, SubmitSolutionData}
use mining_pool.Db.Event.{ShareEvent, DbEvent, share, miner_connected, hash_to_difficulty}
use mining_pool.Stratum.Target.Compact.{compact_value}
use mining_pool.Stratum.Protocol.{sv2, Codec, OpenExtendedMiningChannel, SubmitSharesExtended}
use mining_pool.Stratum.State.{ChannelInfo, ConnectionState, JobInfo, World, done, get}
use mining_pool.Stratum.State.Channels.{AllChannels}
use mining_pool.Stratum.State.Keeps.{IsCalm}
use mining_pool.Stratum.Extranonce.{extranonce_prefix_of}
use mining_pool.Stratum.Job.{JobMessages, build_job_messages}
use mining_pool.Stratum.Open.{initial_target, new_channel}
use mining_pool.Stratum.Connection.{Event, frame}
use mining_pool.Stratum.Submit.{share_coinbase, share_header, solution_of}

module _ (lib : BitcoinLib) (Seen : RawTemplate → Type 0) where
  -- A job that was built for the channel from one of the templates.
  pub record IsIssued (channel : ChannelInfo) (job : JobInfo) : Type 0 where
    pub template : RawTemplate
    pub seen : Seen template
    pub job_id : ℕ
    pub messages : JobMessages
    pub built : build_job_messages lib channel job_id template ≡ done messages
    pub info : job ≡ messages.info

  abbrev pub CurrentIsIssued : ChannelInfo → Option JobInfo → Type 0
  CurrentIsIssued channel none = Unit
  CurrentIsIssued channel (some job) = IsIssued channel job

  -- A solution that solves a block: it is made of a share for a job that was built from one of the templates for a
  -- channel with its own prefix, and the header that its coinbase gives has a hash at most the network's target.
  pub record IsBlock (solution : SubmitSolutionData) : Type 0 where
    pub channel : ChannelInfo
    pub job : JobInfo
    pub prefix : channel.extranonce_prefix ≡ extranonce_prefix_of channel.channel_id
    pub issued : IsIssued channel job
    pub of_share : SubmitSharesExtended
    pub txid : Bytes
    pub made : solution ≡ solution_of job of_share (share_coinbase channel job of_share)
    pub read : lib.txid_of_bytes (share_coinbase channel job of_share) ≡ some txid
    pub solved :
        le_value (lib.block_hash (share_header lib job of_share txid)) ≤ compact_value job.nbits

module _ {F32 F64 : Type 0} (lib : BitcoinLib) (fl : Floats F32 F64) (codec : Codec F32)
    (Seen : RawTemplate → Type 0) (Met : ConnectionState → Event → Type 0) where
  -- A channel that a request opened: the connection met the request in a state and with a template, and but for its
  -- job the channel is the one that the request opens under the next id there; its job was built for this channel.
  pub record IsGenuine (channel : ChannelInfo) : Type 0 where
    pub opened_in : ConnectionState
    pub payload : Bytes
    pub opened_with : RawTemplate
    pub now : ℤ
    pub msg : OpenExtendedMiningChannel F32
    pub met :
        Met opened_in
          (frame (sv2 (some codec.type_open_extended_mining_channel) payload) opened_with now)
    pub seen : Seen opened_with
    pub parsed : codec.parse_open_extended_mining_channel payload ≡ some msg
    pub as_opened :
        channel
        ≡ record (new_channel lib fl codec opened_with msg opened_in.pool_address
            opened_in.next_channel_id) { current_job = channel.current_job }
    pub current : CurrentIsIssued lib Seen channel channel.current_job

  -- A share that the connection met as a request, in a state whose map holds the channel under the share's id.
  pub record IsSubmitted (s : SubmitSharesExtended) (channel : ChannelInfo) : Type 0 where
    pub state : ConnectionState
    pub payload : Bytes
    pub template : RawTemplate
    pub now : ℤ
    pub met : Met state (frame (sv2 (some codec.type_submit_shares_extended) payload) template now)
    pub parsed : codec.parse_submit_shares_extended payload ≡ some s
    pub held : get s.channel_id state.channels ≡ some channel

  -- An accepted share: one that was submitted for the current job of such a channel, whose hash is at most the
  -- channel's target, with the channel's address, and the hash, its difficulty and the time of the share.
  pub record IsShare (event : ShareEvent F64) : Type 0 where
    pub channel : ChannelInfo
    pub job : JobInfo
    pub genuine : IsGenuine channel
    pub has_job : channel.current_job ≡ some job
    pub of_share : SubmitSharesExtended
    pub submitted : IsSubmitted of_share channel
    pub same_job : job.job_id ≡ of_share.job_id
    pub txid : Bytes
    pub read : lib.txid_of_bytes (share_coinbase channel job of_share) ≡ some txid
    pub address : event.miner_address ≡ channel.miner_address
    pub hash : event.block_hash_be ≡ reverse (lib.block_hash (share_header lib job of_share txid))
    pub difficulty : event.difficulty ≡ hash_to_difficulty fl event.block_hash_be
    pub time : event.timestamp ≡ pos of_share.ntime
    pub meets :
        le_value (lib.block_hash (share_header lib job of_share txid))
        ≤ be_value channel.channel_target_be

  abbrev pub IsCounted : DbEvent F64 → Type 0
  IsCounted (share event) = IsShare event
  IsCounted (miner_connected address timestamp) = Unit

  -- The channels are genuine, the solutions are blocks, and the reported shares are accepted ones.
  abbrev pub Fair : World F64 → Type 0
  Fair w =
      AllChannels IsGenuine w.state.channels
      × All (IsBlock lib Seen) w.solutions
      × All IsCounted w.events

  -- The world when the loop meets an event.
  abbrev pub Arrived : Event → World F64 → Type 0
  Arrived e w = Met w.state e × Fair w

  -- A genuine channel has the prefix of its own id, and the target for the request's hashrate.
  pub IsGenuine-prefix :
      (channel : ChannelInfo)
      → IsGenuine channel
      → channel.extranonce_prefix ≡ extranonce_prefix_of channel.channel_id
  unfolding new_channel
  IsGenuine-prefix channel v =
      ap (λ c. c.extranonce_prefix) v.as_opened
      ∙ ap extranonce_prefix_of (sym (ap (λ c. c.channel_id) v.as_opened))

  pub IsGenuine-target :
      (channel : ChannelInfo) (v : IsGenuine channel)
      → channel.channel_target_be
        ≡ initial_target fl v.msg.nominal_hash_rate v.opened_with.set_new_prev_hash.n_bits
  unfolding new_channel
  IsGenuine-target channel v = ap (λ c. c.channel_target_be) v.as_opened

  pub Fair-IsCalm : IsCalm Fair
  Fair-IsCalm = record { told = λ w sent writes h. h }
