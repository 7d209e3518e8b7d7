-- ===== src/Files/Bundles/Saved.antt =====
-- Bundles that an upload does not complete stay as they are.
use Prim.Native.String.{String}
use fork_glitchtip_glitchtip.Common.{ℕ, ◌≡◌, false, Option, none, some, List}
use fork_glitchtip_glitchtip.Files.Assemble.{is_in}

-- none of the identifiers
abbrev pub IsOut : List ℕ → Option ℕ → Type 0
IsOut ids none = Unit
IsOut ids (some s) = is_in ids s ≡ false
