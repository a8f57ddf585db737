-- ===== src/Cron.antt =====
-- Five-field cron expressions, runner/cron.py: `Cron.parse`. `str.split`, `partition` and `int` are
-- parameters. Sets of numbers are lists, and a CronError is the left side of the result.
pub mod Walk
pub mod First
pub mod Fires
pub mod Progressions
pub mod Fields
pub mod Tests
use siatt.Base.{
  ℕ, zero, suc, ◌+◌, ◌-◌, ◌*◌, String, ◌⊎◌, inl, inr, Bool, true, false, not, ◌&&◌, Option, none,
  some, List, [], ◌∷◌, ◌++◌, ltb, leb, if◌then◌else◌, ◌==◌, nat_keyed, string_keyed, pair_keyed,
  length,
}

pub record Cron : Type 0 where
  pub minutes : List ℕ
  pub hours : List ℕ
  pub days : List ℕ
  pub months : List ℕ
  pub weekdays : List ℕ
  pub either_day : Bool
  pub expression : String

-- What a CronError says of an expression.
pub data CronError : Type 0 where
  field_count : ℕ → CronError
  matches_nothing : String → CronError
  step_not_number : String → CronError
  step_below_one : String → CronError
  steps_from_value : String → CronError
  outside : String → CronError
  backwards : String → CronError
  not_number : String → CronError
  never_fires : CronError

-- What `int` reads: a number, or one below zero.
pub data Numeral : Type 0 where
  whole : ℕ → Numeral
  negative : Numeral

pub record Texts : Type 0 where
  -- `expression.split()` and `text.split(",")`
  pub words : String → List String
  pub commas : String → List String
  -- `part.partition("/")` and `spec.partition("-")`, without the separator.
  pub slash : String → String × String
  pub dash : String → String × String
  -- `"-" in spec` and `startswith("*")`
  pub has_dash : String → Bool
  pub starred : String → Bool
  -- `int(text)`, nothing where it raises.
  pub int : String → Option Numeral

-- `range(start, stop + 1, step)`: `count` numbers at most.
abbrev pub range_from : ℕ → ℕ → ℕ → ℕ → List ℕ
range_from zero start stop step = []
range_from (suc count) start stop step =
    let rest = range_from count (start + step) stop step in
    if leb start stop then start ∷ rest else []

module _ (l : Texts) where
  abbrev pub number : String → Option Numeral → CronError ⊎ Numeral
  number part none = inl (not_number part)
  number part (some n) = inr n

  -- The checks on the two ends.
  abbrev pub ends : String → ℕ → ℕ → Numeral → Numeral → CronError ⊎ ℕ × ℕ
  ends part low high negative stop = inl (outside part)
  ends part low high (whole start) negative = inl (outside part)
  ends part low high (whole start) (whole stop) =
      if not (leb low start && leb start high && (leb low stop && leb stop high))
      then inl (outside part)
      else if ltb stop start
      then inl (backwards part)
      else inr (start, stop)

  abbrev pub both_ends :
      String → ℕ → ℕ → CronError ⊎ Numeral → CronError ⊎ Numeral → CronError ⊎ ℕ × ℕ
  both_ends part low high (inl error) stop = inl error
  both_ends part low high (inr start) (inl error) = inl error
  both_ends part low high (inr start) (inr stop) = ends part low high start stop

  -- The value that a bare number stands for, twice; a step on it is refused.
  abbrev pub single : String → ℕ → ℕ → Bool → CronError ⊎ Numeral → CronError ⊎ ℕ × ℕ
  single part low high stepped (inl error) = inl error
  single part low high true (inr n) = inl (steps_from_value part)
  single part low high false (inr n) = ends part low high n n

  abbrev pub span : String → String → Bool → ℕ → ℕ → CronError ⊎ ℕ × ℕ
  span part spec stepped low high =
      if spec == "*"
      then ends part low high (whole low) (whole high)
      else if l.has_dash spec
      then both_ends part low high (number part (l.int (l.dash spec).0))
          (number part (l.int (l.dash spec).1))
      else single part low high stepped (number part (l.int spec))

  abbrev pub stepped_from : ℕ → CronError ⊎ ℕ × ℕ → CronError ⊎ List ℕ
  stepped_from step (inl error) = inl error
  stepped_from step (inr (start, stop)) = inr (range_from (suc (stop - start)) start stop step)

  abbrev pub with_step : String → String → Bool → Option Numeral → ℕ → ℕ → CronError ⊎ List ℕ
  with_step part spec given none low high = inl (step_not_number part)
  with_step part spec given (some negative) low high = inl (step_below_one part)
  with_step part spec given (some (whole step)) low high =
      if ltb step 1
      then inl (step_below_one part)
      else stepped_from step (span part spec given low high)

  abbrev pub step_of : String → Option Numeral
  step_of step_text = if step_text == "" then some (whole 1) else l.int step_text

  -- `_part`
  unfoldable pub part_values : String → ℕ → ℕ → CronError ⊎ List ℕ
  part_values part low high =
      let (spec, step_text) = l.slash part in
      with_step part spec (not (step_text == "")) (step_of step_text) low high

  abbrev pub join : CronError ⊎ List ℕ → CronError ⊎ List ℕ → CronError ⊎ List ℕ
  join (inl error) rest = inl error
  join (inr vs) (inl error) = inl error
  join (inr vs) (inr ws) = inr (vs ++ ws)

  abbrev pub parts_values : List String → ℕ → ℕ → CronError ⊎ List ℕ
  parts_values [] low high = inr []
  parts_values (part ∷ parts) low high =
      join (part_values part low high) (parts_values parts low high)

  abbrev pub some_values : String → CronError ⊎ List ℕ → CronError ⊎ List ℕ
  some_values text (inl error) = inl error
  some_values text (inr []) = inl (matches_nothing text)
  some_values text (inr (v ∷ vs)) = inr (v ∷ vs)

  -- `_field`
  unfoldable pub field : String → ℕ → ℕ → CronError ⊎ List ℕ
  field text low high = some_values text (parts_values (l.commas text) low high)

  infixl 15 ◌>>◌
  abbrev pub ◌>>◌ : {A B : Type 0} → CronError ⊎ A → (A → CronError ⊎ B) → CronError ⊎ B
  inl error >> f = inl error
  inr a >> f = f a

  abbrev pub parse_fields : String → List String → CronError ⊎ Cron
  parse_fields expression (m ∷ h ∷ d ∷ mo ∷ w ∷ []) = field m 0 59 >> (λ minutes.
      field h 0 23 >> (λ hours. field d 1 31 >> (λ days. field mo 1 12 >> (λ months.
        field w 0 6 >> (λ weekdays. inr (record {
          minutes = minutes;
          hours = hours;
          days = days;
          months = months;
          weekdays = weekdays;
          either_day = not (l.starred d) && not (l.starred w);
          expression = expression;
        }))))))
  parse_fields expression fields = inl (field_count (length fields))

  unfoldable pub parse : String → CronError ⊎ Cron
  parse expression = parse_fields expression (l.words expression)
