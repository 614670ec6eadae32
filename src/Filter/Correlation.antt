-- ===== src/Filter/Correlation.antt =====
-- The interceptor of src/shared/interfaces/http/interceptors/correlation-id.interceptor.ts, and
-- the ids that the filter answers with.
use bet_advise.Base.{◌≡◌, refl, false, Option, none, some}
use bet_advise.Base.Text.{Text, codes, is_empty, text_or}
use bet_advise.Filter.{Exception, Request, respond}

-- `request.headers['x-correlation-id'] || randomUUID()`
abbrev pub correlation_id_of : Option Text → Text → Text
correlation_id_of header uuid = text_or header uuid

-- `intercept`: the request that goes on, and the header of the response.
unfoldable pub intercept : Option Text → Text → Request → Request × Text
intercept header uuid request = (
  record request { correlation_id = some (correlation_id_of header uuid) },
  correlation_id_of header uuid,
)

text_or-named : (t d : Text) → is_empty t ≡ false → text_or (some t) d ≡ t
text_or-named t d filled = rw filled refl

-- A request as it arrives.
unfoldable pub arrived : Text → Request
arrived url = record { url = url; correlation_id = none }

-- An exception after the interceptor is answered with the id that the response header has. One
-- that is thrown before it, by the middleware or a guard, is answered with `unknown`, whatever
-- header the request came with.
pub respond-intercept :
    (e : Exception) (header : Option Text) (uuid url : Text)
    → is_empty (correlation_id_of header uuid) ≡ false
    → ((respond e (intercept header uuid (arrived url)).0).correlation_id
        ≡ (intercept header uuid (arrived url)).1)
      × ((respond e (arrived url)).correlation_id ≡ codes "unknown")
unfolding respond intercept arrived
respond-intercept e header uuid url filled =
    (text_or-named (correlation_id_of header uuid) (codes "unknown") filled, refl)
