-- ===== src/Stratum/Fair/Mono.antt =====
-- What is fair for some templates and events is fair for more of them (pool/src/stratum_sv2.rs).
use mining_pool.Base.{Option, none, some, All_mono}
use mining_pool.Bitcoin.{BitcoinLib, Floats}
use mining_pool.NodeIpc.Template.{RawTemplate, SubmitSolutionData}
use mining_pool.Db.Event.{ShareEvent, DbEvent, share, miner_connected}
use mining_pool.Stratum.Protocol.{Codec, SubmitSharesExtended}
use mining_pool.Stratum.Connection.{Event}
use mining_pool.Stratum.State.{ChannelInfo, ConnectionState, JobInfo, World}
use mining_pool.Stratum.Fair.{
  IsIssued, CurrentIsIssued, IsBlock, IsGenuine, IsSubmitted, IsShare, IsCounted, Fair,
}

module _ (lib : BitcoinLib) (Seen Wider : RawTemplate → Type 0)
    (wider : (t : RawTemplate) → Seen t → Wider t) where
  IsIssued-mono :
      (channel : ChannelInfo) (job : JobInfo)
      → IsIssued lib Seen channel job
      → IsIssued lib Wider channel job
  IsIssued-mono channel job v = record {
    template = v.template;
    seen = wider v.template v.seen;
    job_id = v.job_id;
    messages = v.messages;
    built = v.built;
    info = v.info;
  }

  CurrentIsIssued-mono :
      (channel : ChannelInfo) (current : Option JobInfo)
      → CurrentIsIssued lib Seen channel current
      → CurrentIsIssued lib Wider channel current
  CurrentIsIssued-mono channel none v = tt
  CurrentIsIssued-mono channel (some job) v = IsIssued-mono channel job v

  pub IsBlock-mono :
      (solution : SubmitSolutionData) → IsBlock lib Seen solution → IsBlock lib Wider solution
  IsBlock-mono solution v = record {
    channel = v.channel;
    job = v.job;
    prefix = v.prefix;
    issued = IsIssued-mono v.channel v.job v.issued;
    of_share = v.of_share;
    txid = v.txid;
    made = v.made;
    read = v.read;
    solved = v.solved;
  }

  module _ {F32 F64 : Type 0} (fl : Floats F32 F64) (codec : Codec F32)
      (Met More : ConnectionState → Event → Type 0)
      (more : (st : ConnectionState) (e : Event) → Met st e → More st e) where
    IsGenuine-mono :
        (channel : ChannelInfo)
        → IsGenuine lib fl codec Seen Met channel
        → IsGenuine lib fl codec Wider More channel
    IsGenuine-mono channel v = record {
      opened_in = v.opened_in;
      payload = v.payload;
      opened_with = v.opened_with;
      now = v.now;
      msg = v.msg;
      met = more _ _ v.met;
      seen = wider v.opened_with v.seen;
      parsed = v.parsed;
      as_opened = v.as_opened;
      current = CurrentIsIssued-mono channel channel.current_job v.current;
    }

    IsSubmitted-mono :
        (s : SubmitSharesExtended) (channel : ChannelInfo)
        → IsSubmitted lib fl codec Seen Met s channel
        → IsSubmitted lib fl codec Wider More s channel
    IsSubmitted-mono s channel v = record {
      state = v.state;
      payload = v.payload;
      template = v.template;
      now = v.now;
      met = more _ _ v.met;
      parsed = v.parsed;
      held = v.held;
    }

    pub IsShare-mono :
        (event : ShareEvent F64)
        → IsShare lib fl codec Seen Met event
        → IsShare lib fl codec Wider More event
    IsShare-mono event v = record {
      channel = v.channel;
      job = v.job;
      genuine = IsGenuine-mono v.channel v.genuine;
      has_job = v.has_job;
      of_share = v.of_share;
      submitted = IsSubmitted-mono v.of_share v.channel v.submitted;
      same_job = v.same_job;
      txid = v.txid;
      read = v.read;
      address = v.address;
      hash = v.hash;
      difficulty = v.difficulty;
      time = v.time;
      meets = v.meets;
    }

    pub IsCounted-mono :
        (event : DbEvent F64)
        → IsCounted lib fl codec Seen Met event
        → IsCounted lib fl codec Wider More event
    IsCounted-mono (share event) v = IsShare-mono event v
    IsCounted-mono (miner_connected address timestamp) v = tt

    pub Fair-mono : (w : World F64) → Fair lib fl codec Seen Met w → Fair lib fl codec Wider More w
    Fair-mono w (channels, solutions, reports) = (
      All_mono w.state.channels (λ e. IsGenuine-mono e.1) channels,
      All_mono w.solutions IsBlock-mono solutions,
      All_mono w.events IsCounted-mono reports,
    )
