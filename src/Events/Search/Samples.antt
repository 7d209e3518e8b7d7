-- ===== src/Events/Search/Samples.antt =====
-- Sample events for the theorems on the searched text.
use Prim.Native.String
use Prim.Native.String.{String}
use fork_glitchtip_glitchtip.Common.{◌≤◌, ◌≡◌, true, none, some, Option, [], ◌∷◌}
use fork_glitchtip_glitchtip.Events.Tags.{clean_string}
use fork_glitchtip_glitchtip.Events.Tags.{nul_free}
use fork_glitchtip_glitchtip.Events.Search.{ParseResult, SearchedEvent, get_search_vector}
use fork_glitchtip_glitchtip.Events.Search.Parts.{joined}
use fork_glitchtip_glitchtip.Events.Search.Limits.{get_search_vector-bounded}

abbrev searched : SearchedEvent
searched = record {
  title = "ValueError: bad input";
  transaction = "checkout";
  url = "https://shop.example.com/cart?id=1";
  exception_frames = none ∷ some ("app/views.py" ∷ "" ∷ "app/cart.py" ∷ []) ∷ [];
}

abbrev read_url : String → Option ParseResult
read_url url = some (record { scheme = "https"; netloc = "shop.example.com"; path = "/cart" })

get_search_vector-bounded_example :
    (String.count (get_search_vector read_url (λ path. path) searched) ≤ 1258)
    × (nul_free (get_search_vector read_url (λ path. path) searched) ≡ true)
    × (get_search_vector read_url (λ path. path) searched
        ≡ clean_string (joined read_url (λ path. path) searched))
get_search_vector-bounded_example = get_search_vector-bounded read_url (λ path. path) searched
