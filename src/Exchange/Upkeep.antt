-- ===== src/Exchange/Upkeep.antt =====
-- The ticks of a client whose heartbeats are granted, one after the other.
use mathlib.Core.Path.{subst}
use migration_platform.Prelude.{
  ℕ, ◌+◌, ◌≤◌, ◌<◌, ◌≡◌, refl, sym, true, none, some, List, [], ◌∷◌, ok, is_ok, arith, Bool-cases,
  inl, inr,
}
use migration_platform.Text.{Str, lit}
use migration_platform.Time.{Instant, Duration}
use migration_platform.Json.{Value}
use migration_platform.License.Types.{LicenseDoc, LicenseState}
use migration_platform.License.Signing.{Codec}
use migration_platform.License.Signing.Laws.{CodecLaws}
use migration_platform.License.Validity.{heartbeat_grace}
use migration_platform.License.Heartbeat.{require_licensed}
use migration_platform.License.Heartbeat.Laws.{heartbeat_interval_pos}
use migration_platform.License.Client.{World, LicenseServer, from_env, load_public_key}
use migration_platform.License.Tick.{heartbeat_tick, record_outcome, beat}
use migration_platform.License.Tick.Liveness.{IsKnown, is_due, tick-beat, beat_not_due}
use migration_platform.Vendor.Types.{ServerConfig, ServerState, Arrival, HeartbeatResponse}
use migration_platform.Vendor.Guards.{normalize_fingerprint}
use migration_platform.Vendor.Heartbeat.{heartbeat, reattest}
use migration_platform.Exchange.Laws.{JsonLaws}
use migration_platform.Exchange.Delivery.{Delivered, sent_request}
use migration_platform.Exchange.Renewal.{granted-refreshed}
use migration_platform.Exchange.WellKept.{
  WellKept, WellKept-open, tick_interval, waiting-young, beat-refreshed,
}

module _ (c : Codec) (instant_value : Instant → Value) (rejection : ℕ → Str) (cfg : ServerConfig)
    (k : c.PrivateKey) (fp : Str) (horizon : Instant) where
  -- The heartbeat of a tick gets to the server, in some state of its own, and is granted there.
  pub record Answered (w : World) (held : LicenseState) : Type 0 where
    pub server : LicenseServer
    pub raw : Str
    pub file : Value
    pub a : Arrival
    pub s : ServerState
    pub r : HeartbeatResponse
    pub holds : held.raw ≡ some raw
    pub finds : from_env w ≡ some server
    pub trusts : load_public_key c w ≡ ok (c.public_of k)
    pub reads : c.value_of_text raw ≡ some file
    pub sent : Delivered c instant_value rejection cfg w server fp file a s
    pub granted : (heartbeat c cfg a (sent_request fp file w.version) s).0 ≡ ok r
    pub on_time : a.now ≡ w.now
    pub lasting : horizon ≤ r.expires_at

  -- A tick that the server answers leaves the license attested at its instant.
  beat-WellKept :
      (codec : CodecLaws c) (json : JsonLaws c instant_value) (w : World) (held : LicenseState)
      (held_doc : LicenseDoc)
      → c.private_of_pem cfg.signing_key_pem ≡ some k
      → normalize_fingerprint fp ≡ ok fp
      → w.now < horizon
      → held.doc ≡ some held_doc
      → is_due w held ≡ true
      → Answered w held
      → WellKept fp horizon (tick_interval w) w.now (beat c w fp held)
  beat-WellKept codec json w held held_doc ek named before hd due o =
      let last = o.lasting in
      let (doc, renewed, here, expiry, outcome) =
        granted-refreshed c instant_value rejection cfg codec json w o.server fp o.raw o.file o.a
          o.s k o.r o.sent ek named o.reads o.granted (omega arith) in
      let fresh = reattest c o.a.now doc in
      let result =
        beat-refreshed c w fp o.server (c.public_of k) o.raw held held_doc
          (record { doc = fresh; raw = renewed; store_stamp = none }) due o.holds hd o.finds
          o.trusts outcome in
      subst (WellKept fp horizon (tick_interval w) w.now) (sym result) (record {
        doc = fresh;
        issued = o.a.now;
        holds = unfold record_outcome in refl;
        wants = refl;
        dated = refl;
        bound = here;
        kept = unfold record_outcome in refl;
        clean = unfold record_outcome in refl;
        young = omega (
          arith,
          o.on_time,
          heartbeat_interval_pos (w.var (lit "LICENSE_HEARTBEAT_INTERVAL_SECS")),
        );
        lasting = omega (arith, expiry, o.lasting);
      })

  -- The ticks of the client: they follow one another within `gap`, nothing but the process itself has
  -- written the store file since the tick before, and whenever a heartbeat is due, the server grants it.
  abbrev pub Ticking : Duration → Duration → Instant → List World → LicenseState → Type 0
  Ticking interval gap n [] held = Unit
  Ticking interval gap n (w ∷ ws) held =
      (w.now ≤ n + gap)
      × (w.now < horizon)
      × (tick_interval w ≡ interval)
      × IsKnown c fp w held
      × (is_due w held ≡ true → Answered w held)
      × Ticking interval gap w.now ws (heartbeat_tick c w fp held)

  -- The state after the ticks, and the instant of the last one.
  abbrev pub after_ticks : List World → LicenseState → LicenseState
  after_ticks [] held = held
  after_ticks (w ∷ ws) held = after_ticks ws (heartbeat_tick c w fp held)

  abbrev pub last_tick : Instant → List World → Instant
  last_tick n [] = n
  last_tick n (w ∷ ws) = last_tick w.now ws

  module _ (codec : CodecLaws c) (json : JsonLaws c instant_value)
      (ek : c.private_of_pem cfg.signing_key_pem ≡ some k)
      (named : normalize_fingerprint fp ≡ ok fp) where
    tick-WellKept :
        (interval : Duration) (n : Instant) (w : World) (held : LicenseState)
        → w.now < horizon
        → tick_interval w ≡ interval
        → IsKnown c fp w held
        → (is_due w held ≡ true → Answered w held)
        → WellKept fp horizon interval n held
        → WellKept fp horizon interval w.now (heartbeat_tick c w fp held)
    tick-WellKept interval n w held before same free answers kept =
        elim (Bool-cases (is_due w held)) [
          | inl due ↦ rw (tick-beat c fp w held free) (
              subst (λ i. WellKept fp horizon i w.now (beat c w fp held)) same
                (beat-WellKept codec json w held kept.doc ek named before kept.holds due
                  (answers due)))
          | inr wait ↦
              let still =
                waiting-young w held kept.doc kept.issued kept.holds kept.wants kept.dated kept.kept
                  kept.clean wait in
              rw (tick-beat c fp w held free, beat_not_due c fp w held wait)
                (record {
                  doc = kept.doc;
                  issued = kept.issued;
                  holds = kept.holds;
                  wants = kept.wants;
                  dated = kept.dated;
                  bound = kept.bound;
                  kept = kept.kept;
                  clean = kept.clean;
                  young = omega (arith, same, still);
                  lasting = kept.lasting;
                })
        ]

    ticks-WellKept :
        (interval gap : Duration) (n : Instant) (ws : List World) (held : LicenseState)
        → Ticking interval gap n ws held
        → WellKept fp horizon interval n held
        → WellKept fp horizon interval (last_tick n ws) (after_ticks ws held)
    ticks-WellKept interval gap n [] held ticks kept = kept
    ticks-WellKept interval gap n (w ∷ ws) held (soon, before, same, free, answers, rest) kept =
        ticks-WellKept interval gap w.now ws (heartbeat_tick c w fp held) rest
          (tick-WellKept interval n w held before same free answers kept)

    -- A license that is held and attested, with neither a refusal nor an error, never lapses while
    -- the ticks go on, nothing but the process itself writes the store file, and the server, whose clock agrees with the
    -- client's, grants every heartbeat that is due: up to the next tick, and as long as the
    -- server's expiries lie ahead, the gate is open, if the interval of the heartbeats and the time
    -- between two ticks are 72 hours together at most. The libraries read what they have written.
    pub ticks_keep_open :
        (interval gap : Duration) (n : Instant) (ws : List World) (held : LicenseState)
        → interval + gap ≤ heartbeat_grace
        → WellKept fp horizon interval n held
        → Ticking interval gap n ws held
        → (t : Instant) → t ≤ last_tick n ws + gap
        → t < horizon
        → is_ok (require_licensed true (after_ticks ws held) fp t) ≡ true
    ticks_keep_open interval gap n ws held room kept ticks t soon before =
        WellKept-open fp horizon (last_tick n ws) t interval gap (after_ticks ws held)
          (ticks-WellKept interval gap n ws held ticks kept) room soon before
