-- ===== src/Time.antt =====
-- Instants and durations of chrono. An instant (`DateTime<Utc>`) counts nanoseconds from a moment
-- ten trillion seconds before the Unix epoch, which is earlier than any instant chrono holds, so
-- that every instant is a natural number. A difference of instants is signed in chrono: it is only
-- ever compared with a duration, and those comparisons are written without a subtraction.
use migration_platform.Prelude.{ℕ, ◌+◌, ◌*◌, Bool, ltb, leb}

abbrev pub Instant : Type 0
Instant = ℕ

abbrev pub Duration : Type 0
Duration = ℕ

abbrev pub seconds : ℕ → Duration
seconds n = n * 1_000_000_000

abbrev pub hours : ℕ → Duration
hours n = seconds (n * 3600)

abbrev pub days : ℕ → Duration
days n = hours (n * 24)

abbrev pub unix_epoch : Instant
unix_epoch = seconds 10_000_000_000_000

-- `a - b > d`
abbrev pub diff_gt : Instant → Instant → Duration → Bool
diff_gt a b d = ltb (b + d) a

-- `a - b >= d`
abbrev pub diff_ge : Instant → Instant → Duration → Bool
diff_ge a b d = leb (b + d) a

-- `a - b < d`
abbrev pub diff_lt : Instant → Instant → Duration → Bool
diff_lt a b d = ltb a (b + d)
