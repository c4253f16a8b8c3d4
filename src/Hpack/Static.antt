-- ===== src/Hpack/Static.antt =====
-- The static table of core/controller/c/containerd/h2c.c (HPACK_STATIC, RFC 7541 Appendix A).
use strimserver.Prelude.{ℕ, suc, Bool, ◌&&◌, List, [], ◌∷◌, if◌then◌else◌}
use Prim.Native.String.{String}
use strimserver.Spec.{chars}
use strimserver.Hpack.Table.{same_bytes}

-- hpack_static
pub record StaticEntry : Type 0 where
  pub name : List ℕ
  pub value : List ℕ

abbrev pub static_row : String → String → StaticEntry
static_row name value = record { name = chars name; value = chars value }

unfoldable pub static_table : List StaticEntry
static_table =
    static_row ":authority" ""
    ∷ static_row ":method" "GET"
    ∷ static_row ":method" "POST"
    ∷ static_row ":path" "/"
    ∷ static_row ":path" "/index.html"
    ∷ static_row ":scheme" "http"
    ∷ static_row ":scheme" "https"
    ∷ static_row ":status" "200"
    ∷ static_row ":status" "204"
    ∷ static_row ":status" "206"
    ∷ static_row ":status" "304"
    ∷ static_row ":status" "400"
    ∷ static_row ":status" "404"
    ∷ static_row ":status" "500"
    ∷ static_row "accept-charset" ""
    ∷ static_row "accept-encoding" "gzip, deflate"
    ∷ static_row "accept-language" ""
    ∷ static_row "accept-ranges" ""
    ∷ static_row "accept" ""
    ∷ static_row "access-control-allow-origin" ""
    ∷ static_row "age" ""
    ∷ static_row "allow" ""
    ∷ static_row "authorization" ""
    ∷ static_row "cache-control" ""
    ∷ static_row "content-disposition" ""
    ∷ static_row "content-encoding" ""
    ∷ static_row "content-language" ""
    ∷ static_row "content-length" ""
    ∷ static_row "content-location" ""
    ∷ static_row "content-range" ""
    ∷ static_row "content-type" ""
    ∷ static_row "cookie" ""
    ∷ static_row "date" ""
    ∷ static_row "etag" ""
    ∷ static_row "expect" ""
    ∷ static_row "expires" ""
    ∷ static_row "from" ""
    ∷ static_row "host" ""
    ∷ static_row "if-match" ""
    ∷ static_row "if-modified-since" ""
    ∷ static_row "if-none-match" ""
    ∷ static_row "if-range" ""
    ∷ static_row "if-unmodified-since" ""
    ∷ static_row "last-modified" ""
    ∷ static_row "link" ""
    ∷ static_row "location" ""
    ∷ static_row "max-forwards" ""
    ∷ static_row "proxy-authenticate" ""
    ∷ static_row "proxy-authorization" ""
    ∷ static_row "range" ""
    ∷ static_row "referer" ""
    ∷ static_row "refresh" ""
    ∷ static_row "retry-after" ""
    ∷ static_row "server" ""
    ∷ static_row "set-cookie" ""
    ∷ static_row "strict-transport-security" ""
    ∷ static_row "transfer-encoding" ""
    ∷ static_row "user-agent" ""
    ∷ static_row "vary" ""
    ∷ static_row "via" ""
    ∷ static_row "www-authenticate" ""
    ∷ []

-- The loops of static_find_pair and static_find_name from the 1-based index i on; 0 is not found.
unfoldable pub search_from : (StaticEntry → Bool) → List StaticEntry → (i : ℕ) → ℕ
search_from test [] i = 0
search_from test (e ∷ rest) i =
    let later = search_from test rest (suc i) in if test e then i else later

unfoldable pub static_find_pair : (name value : List ℕ) → ℕ
unfolding search_from static_table
static_find_pair name value =
    search_from (λ e. same_bytes e.name name && same_bytes e.value value) static_table 1

unfoldable pub static_find_name : (name : List ℕ) → ℕ
unfolding search_from static_table
static_find_name name = search_from (λ e. same_bytes e.name name) static_table 1
