-- ===== src/Events/Stream.antt =====
-- `useEventSource` in apps/web/src/lib/sse.ts: one stream over renders, errors and retries. The
-- handlers of the events are left out.
use vexdock.Base.{
  ℕ, ◌+◌, ◌≡◌, refl, ◌⊎◌, inl, inr, Bool, true, false, not, ◌&&◌, Option, none, some, [],
  if◌then◌else◌, Bool-cases,
}
use vexdock.Text.{Text, text_eq}

pub data StreamState : Type 0 where
  connecting open_now lost : StreamState

-- The browser's source: none, one that is open or retries by itself, or one closed for good.
pub data Source : Type 0 where
  absent live closed : Source

-- The hook's state, and what its effect holds: the source and the timer `retry`.
pub record Stream : Type 0 where
  pub url : Option Text
  pub enabled : Bool
  pub state : StreamState
  pub attempt : ℕ
  pub source : Source
  pub retry : Bool

-- `!url` is null and the empty text.
abbrev pub has_url : Option Text → Bool
has_url none = false
has_url (some url) = not (text_eq url [])

abbrev pub wanted : Option Text → Bool → Bool
wanted url enabled = has_url url && enabled

abbrev pub same_url : Option Text → Option Text → Bool
same_url none none = true
same_url (some a) (some b) = text_eq a b
same_url _ _ = false

abbrev pub same_flag : Bool → Bool → Bool
same_flag true b = b
same_flag false b = not b

-- The effect after its cleanup: a source where one is wanted.
abbrev pub new_source : Bool → Source
new_source true = live
new_source false = absent

unfoldable pub mount : Option Text → Bool → Stream
mount url enabled = record {
  url = url;
  enabled = enabled;
  state = connecting;
  attempt = 0;
  source = new_source (wanted url enabled);
  retry = false;
}

-- A render: other arguments start over, and the effect runs again.
unfoldable pub render : Option Text → Bool → Stream → Stream
render url enabled s = if same_url s.url url && same_flag s.enabled enabled then s else record {
  url = url;
  enabled = enabled;
  state = connecting;
  attempt = s.attempt;
  source = new_source (wanted url enabled);
  retry = false;
}

unfoldable pub on_open : Stream → Stream
on_open s = record s { state = open_now }

-- `readyState` tells whether the browser has given up.
unfoldable pub on_error : Bool → Stream → Stream
on_error true s = record s { state = lost; source = closed; retry = true }
on_error false s = record s { state = lost }

-- The timer bumps `attempt`, and the effect runs again.
unfoldable pub on_retry : Stream → Stream
on_retry s = record s {
  attempt = s.attempt + 1;
  source = new_source (wanted s.url s.enabled);
  retry = false;
}

-- What the hook returns.
unfoldable pub stream_state : Stream → StreamState
stream_state s = if wanted s.url s.enabled then s.state else connecting

-- The browser calls back only for a source that is live, the timer only where it is set.
pub data Run : Stream → Type 0 where
  first : (url : Option Text) (enabled : Bool) → Run (mount url enabled)
  rendered : (s : Stream) (url : Option Text) (enabled : Bool) → Run s → Run (render url enabled s)
  opened : (s : Stream) → Run s → s.source ≡ live → Run (on_open s)
  failed : (s : Stream) (gave_up : Bool) → Run s → s.source ≡ live → Run (on_error gave_up s)
  retried : (s : Stream) → Run s → s.retry ≡ true → Run (on_retry s)

-- A wanted stream is live, or its next attempt is scheduled; one that is not wanted has neither.
abbrev pub IsKept : Stream → Type 0
IsKept s =
    ((wanted s.url s.enabled ≡ true) × ((s.source ≡ live) ⊎ (s.retry ≡ true)))
    ⊎ ((wanted s.url s.enabled ≡ false) × (s.source ≡ absent) × (s.retry ≡ false))

new_source-kept :
    (w : Bool)
    → ((w ≡ true) × ((new_source w ≡ live) ⊎ (false ≡ true)))
      ⊎ ((w ≡ false) × (new_source w ≡ absent) × (false ≡ false))
new_source-kept true = inl (refl, inl refl)
new_source-kept false = inr (refl, refl, refl)

render-IsKept :
    (url : Option Text) (enabled : Bool) (s : Stream) → IsKept s → IsKept (render url enabled s)
unfolding render
render-IsKept url enabled s kept =
    elim (Bool-cases (same_url s.url url && same_flag s.enabled enabled)) [
      | inl same ↦ rw same kept
      | inr other ↦ rw other (new_source-kept (wanted url enabled))
    ]

on_error-IsKept :
    (gave_up : Bool) (s : Stream) → s.source ≡ live → IsKept s → IsKept (on_error gave_up s)
unfolding on_error
on_error-IsKept false s l kept = kept
on_error-IsKept true s l (inl (w, _)) = inl (w, inr refl)
on_error-IsKept true s l (inr (_, gone, _)) = absurd (cc)

-- A stream that is wanted never dies: at every moment the browser has a live source for it or the
-- next attempt is scheduled, through any order of renders, errors and retries; and one that is not
-- wanted has no source and no timer left.
pub Run-IsKept : (s : Stream) → Run s → IsKept s
unfolding mount on_open on_retry
Run-IsKept s (first url enabled) = new_source-kept (wanted url enabled)
Run-IsKept s (rendered t url enabled run) = render-IsKept url enabled t (Run-IsKept t run)
Run-IsKept s (opened t run l) = Run-IsKept t run
Run-IsKept s (failed t gave_up run l) = on_error-IsKept gave_up t l (Run-IsKept t run)
Run-IsKept s (retried t run r) = new_source-kept (wanted t.url t.enabled)
