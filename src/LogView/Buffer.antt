-- ===== src/LogView/Buffer.antt =====
-- The buffer of LogViewer in apps/web/src/components/log-viewer.tsx, for one choice of the limit:
-- another limit is another url, whose stream starts over. `cap` is the limit.
use vexdock.Base.{
  ℕ, suc, ◌*◌, Bool, true, false, not, ◌||◌, ◌≡◌, Option, some, List, [], ◌∷◌, ◌++◌, length, ltb,
  if◌then◌else◌,
}
use vexdock.Text.{Text}
use vexdock.LogView.Last.{last}

pub record Line : Type 0 where
  pub stream : Text
  pub text : Text
  pub seq : Option ℕ

-- The `value` of each entry of `lineLimits`, and the entry that a viewer starts with.
pub data LineLimit : Type 0 where
  lines_100 lines_500 lines_1000 lines_5000 : LineLimit

abbrev pub cap_of : LineLimit → ℕ
cap_of lines_100 = 100
cap_of lines_500 = 500
cap_of lines_1000 = 1000
cap_of lines_5000 = 5000

abbrev pub initial_limit : LineLimit
initial_limit = lines_1000

-- The states and refs; `timer` is whether a flush is due.
pub record Buffer : Type 0 where
  pub streamed : List Line
  pub paused : Bool
  pub pending : List Line
  pub timer : Bool
  pub restart : Bool
  pub fresh : Bool
  pub next_seq : ℕ

abbrev pub empty : Buffer
empty = record {
  streamed = [];
  paused = false;
  pending = [];
  timer = false;
  restart = false;
  fresh = false;
  next_seq = 0;
}

abbrev pub numbered_line : Line → ℕ → Line
numbered_line l seq = record { stream = l.stream; text = l.text; seq = some seq }

-- `if (pending.current.length > 2 * cap) pending.current = pending.current.slice(-cap)`
abbrev pub bounded : ℕ → List Line → List Line
bounded cap lines = if ltb (2 * cap) (length lines) then last cap lines else lines

module _ (cap : ℕ) where
  unfoldable pub flush : Buffer → Buffer
  flush b = record {
    streamed = last cap ((if b.fresh then [] else b.streamed) ++ b.pending);
    paused = b.paused;
    pending = [];
    timer = false;
    restart = b.restart;
    fresh = false;
    next_seq = b.next_seq;
  }

  -- The stream's `open`.
  unfoldable pub on_open : Buffer → Buffer
  on_open b = record {
    streamed = b.streamed;
    paused = b.paused;
    pending = b.pending;
    timer = b.timer;
    restart = true;
    fresh = b.fresh;
    next_seq = b.next_seq;
  }

  -- The stream's `log`.
  unfoldable pub on_log : Line → Buffer → Buffer
  on_log l b = record {
    streamed = b.streamed;
    paused = b.paused;
    pending =
        bounded cap
          ((if b.restart then [] else b.pending) ++ numbered_line l (suc b.next_seq) ∷ []);
    timer = b.timer || not b.paused;
    restart = false;
    fresh = b.restart || b.fresh;
    next_seq = suc b.next_seq;
  }

  -- The button Pause or Resume.
  unfoldable pub on_pause : Buffer → Buffer
  on_pause b =
      let now = if b.paused then flush b else b in
      record {
        streamed = now.streamed;
        paused = not b.paused;
        pending = now.pending;
        timer = now.timer;
        restart = now.restart;
        fresh = now.fresh;
        next_seq = now.next_seq;
      }

  -- The button Clear log.
  unfoldable pub on_clear : Buffer → Buffer
  on_clear b = record {
    streamed = [];
    paused = b.paused;
    pending = b.pending;
    timer = b.timer;
    restart = b.restart;
    fresh = b.fresh;
    next_seq = b.next_seq;
  }

  -- What happens to a buffer, in any order; a flush by the timer wants a timer that is set.
  pub data Run : Buffer → Type 0 where
    starts : Run empty
    opens : (b : Buffer) → Run b → Run (on_open b)
    logs : (b : Buffer) (l : Line) → Run b → Run (on_log l b)
    flushes : (b : Buffer) → b.timer ≡ true → Run b → Run (flush b)
    pauses : (b : Buffer) → Run b → Run (on_pause b)
    clears : (b : Buffer) → Run b → Run (on_clear b)
