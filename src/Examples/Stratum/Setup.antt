-- ===== src/Examples/Stratum/Setup.antt =====
-- The first frame of a connection (pool/src/stratum_sv2.rs) at concrete requests.
use mining_pool.Base.{ℕ, ◌≡◌, ◌↔◌, refl, Option, [], ◌∷◌, arith}
use mining_pool.Stratum.Protocol.{setup_success, setup_error, Code, mining_protocol}
use mining_pool.Stratum.State.{World, bad_message_type, ok, err}
use mining_pool.Stratum.Setup.{handle_setup_connection}
use mining_pool.Stratum.Setup.Laws.{
  Offers, told, handle_setup_connection_lem, Refused, told_if, handle_setup_connection-Refused,
}
use mining_pool.Stratum.State.{write}
use mining_pool.Examples.Fixtures.{toy_codec}
use mining_pool.Examples.Stratum.{fresh, world_in, setup_frame, open_frame}

offer : Offers toy_codec setup_frame
offer = record {
  payload = 0 ∷ 2 ∷ 2 ∷ [];
  msg = record { protocol = mining_protocol; min_version = 2; max_version = 2 };
  framed = refl;
  parsed = refl;
  mining = refl;
  from_two = omega arith;
  to_two = omega arith;
}

handle_setup_connection_lem_example :
    (Offers toy_codec setup_frame ↔ (
      (w' : World ℕ) × (handle_setup_connection toy_codec setup_frame (world_in fresh) ≡ ok tt w')))
    × ((w' : World ℕ)
        → handle_setup_connection toy_codec setup_frame (world_in fresh) ≡ ok tt w'
        → w' ≡ told (world_in fresh) (setup_success 2 0x02))
handle_setup_connection_lem_example =
    handle_setup_connection_lem toy_codec setup_frame (world_in fresh) refl

abbrev refused_world : World ℕ
refused_world = told (world_in fresh) (setup_error 0 Code.unsupported_message)

open_refused :
    handle_setup_connection toy_codec open_frame (world_in fresh)
    ≡ err bad_message_type refused_world
unfolding handle_setup_connection write
open_refused = refl

handle_setup_connection-Refused_example :
    (handle_setup_connection toy_codec open_frame (world_in fresh)
      ≡ err bad_message_type refused_world)
    ↔ ((c : Option Code) × Refused toy_codec open_frame bad_message_type c
        × (refused_world ≡ told_if (world_in fresh) c))
handle_setup_connection-Refused_example =
    handle_setup_connection-Refused toy_codec open_frame (world_in fresh) refused_world
      bad_message_type refl
