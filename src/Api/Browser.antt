-- ===== src/Api/Browser.antt =====
-- What apps/web/src/lib/api.ts has the browser do: the encoders of URLs, `JSON.stringify` of two
-- kinds of filters, `String` of a number, and the offset of the clock's zone as a text.
use vexdock.Base.{List}
use vexdock.Text.{Text}
use vexdock.Api.Call.{Number}
use vexdock.Api.Types.Studio.{StudioFilter}

pub record Browser : Type 0 where
  pub encode_component : Text → Text
  pub encode_form : Text → Text
  pub pairs_json : List (Text × Text) → Text
  pub conditions_json : List StudioFilter → Text
  pub number_text : Number → Text
  pub zone_offset : Text
