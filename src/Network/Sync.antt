-- ===== src/Network/Sync.antt =====
-- network/coordinator/src/sync_service.py: periodic pulses. Each call of `time.time()` is an argument.
pub mod Pulses
use semaforo.Prelude.{ℕ, suc, ◌+◌, String, Bool, false, Option, none, List, [], ◌∷◌, if◌then◌else◌}
use semaforo.Prelude.Text.{◌+++◌}
use semaforo.Float.{Float}
use semaforo.Network.Message.{SyncPulse, Message, pulse, millis}

pub record SyncService (W : Type 0) : Type 0 where
  pub zone_id : String
  pub interval_s : W
  pub last_pulse_time : W
  pub cycle_counter : ℕ
  pub start_time : W

abbrev pub default_zone : String
default_zone = "zone-default"

module _ {W : Type 0} ⦃f : Float W⦄ where
  -- SYNC_INTERVAL_S
  abbrev pub sync_interval_s : W
  sync_interval_s = f.ratio 10 1

  unfoldable pub init : String → W → W → SyncService W
  init zone interval now = record {
    zone_id = zone;
    interval_s = interval;
    last_pulse_time = f.ratio 0 1;
    cycle_counter = 0;
    start_time = now;
  }

  unfoldable pub publish_pulse : W → W → SyncService W → SyncService W × List (Message W)
  publish_pulse stamp up s =
      let count = s.cycle_counter + 1 in
      (
        record s { cycle_counter = count },
        record {
          topic = "semaforo/" +++ s.zone_id +++ "/sync/pulse";
          payload = pulse (record {
            timestamp = millis stamp;
            cycle_ref = count;
            zone_id = s.zone_id;
            uptime_s = f.truncate (f.sub up s.start_time);
          });
          sequence_number = none;
          qos = 0;
          retain = false;
        }
            ∷ [],
      )

  unfoldable pub tick : W → W → W → SyncService W → SyncService W × List (Message W)
  unfolding publish_pulse
  tick now stamp up s =
      if f.le s.interval_s (f.sub now s.last_pulse_time)
      then (let (s', sent) = publish_pulse stamp up s in
          (record s' { last_pulse_time = now }, sent))
      else (s, [])

  unfoldable pub force_pulse : W → W → W → SyncService W → SyncService W × List (Message W)
  unfolding publish_pulse
  force_pulse stamp up now s =
      let (s', sent) = publish_pulse stamp up s in (record s' { last_pulse_time = now }, sent)
