-- ===== src/Oracle/FeedLaws.antt =====
-- Which feed oracle.json has under a key.
use Prim.Native.String.{◌++◌ as join}
use rome_solidity.Prelude.{
  String, ◌≡◌, refl, ◌∙◌, true, Option, none, some, List, [], ◌∷◌, map, arith, All, ◌==◌, string_eq,
  eq_iff, if◌then◌else◌, insert, lookup, lookup-insert, or_else,
}
use rome_solidity.Oracle.{
  DeploymentsFeed, PriceBookFeed, DeploymentsFile, FeedSource, pyth, switchboard, cached_pyth,
  cached_feed, book, OracleFeed,
}
use rome_solidity.Oracle.Feeds.{
  suffix, feed_entry, book_entry, put_feeds, book_feeds, oracle_feeds, build_oracle,
}
use rome_solidity.Oracle.Keys.{is_plain, key-inj}

-- The last entry with the key
unfoldable pub last_listed : String → List (String × OracleFeed) → Option OracleFeed
last_listed k [] = none
last_listed k ((j, f) ∷ es) = elim (last_listed k es) [
  | some g ↦ some g
  | none ↦ if j == k then some f else none
]

-- `a ?? b` of two values that may be missing
abbrev first_of : Option OracleFeed → Option OracleFeed → Option OracleFeed
first_of (some f) o = some f
first_of none o = o

lookup-put_feeds :
    (k : String) (es feeds : List (String × OracleFeed))
    → lookup k (put_feeds es feeds) ≡ first_of (last_listed k es) (lookup k feeds)
unfolding last_listed put_feeds
lookup-put_feeds k [] feeds = refl
lookup-put_feeds k ((j, f) ∷ es) feeds =
    ground (arith, lookup-put_feeds k es (insert j f feeds), lookup-insert j k f feeds)

abbrev quote : FeedSource → DeploymentsFeed → String × OracleFeed
quote s f = (f.pair, record { address = f.adapter; source = s; underlying_account = some f.pubkey })

abbrev book_quote : PriceBookFeed → String × OracleFeed
book_quote f =
    (f.pair, record { address = f.adapter; source = book; underlying_account = some f.pubkey })

-- The feeds of a source, by pair, as the deployments file lists them
unfoldable pub listed : FeedSource → DeploymentsFile → List (String × OracleFeed)
listed pyth d = map (quote pyth) d.oracle_gateway_v2.feeds.pyth
listed switchboard d = map (quote switchboard) d.oracle_gateway_v2.feeds.switchboard
listed cached_pyth d = map (quote cached_pyth) (or_else d.oracle_gateway_v2.feeds.cached_pyth [])
listed cached_feed d = map (quote cached_feed) (or_else d.oracle_gateway_v2.feeds.cached_feed [])
listed book d = map book_quote (book_feeds d)

-- No pair of the list has a dash.
abbrev pub ArePlain : List (String × OracleFeed) → Type 0
ArePlain es = All (λ (q, f). is_plain q ≡ true) es

abbrev with_suffix : FeedSource → List (String × OracleFeed) → List (String × OracleFeed)
with_suffix s es = map (λ (q, f). (join q (suffix s), f)) es

map-feed_entry :
    (s : FeedSource) (fs : List DeploymentsFeed)
    → map (feed_entry s) fs ≡ with_suffix s (map (quote s) fs)
unfolding feed_entry
map-feed_entry s [] = refl
map-feed_entry s (f ∷ fs) = rw (map-feed_entry s fs) refl

map-book_entry :
    (fs : List PriceBookFeed) → map book_entry fs ≡ with_suffix book (map book_quote fs)
unfolding book_entry
map-book_entry [] = refl
map-book_entry (f ∷ fs) = rw (map-book_entry fs) refl

last_listed-with_suffix :
    (s t : FeedSource) (p : String) (es : List (String × OracleFeed))
    → is_plain p ≡ true
    → ArePlain es
    → last_listed (join p (suffix s)) (with_suffix t es)
      ≡ (if suffix s == suffix t then last_listed p es else none)
unfolding last_listed
last_listed-with_suffix s t p [] hp hs = ground arith
last_listed-with_suffix s t p ((q, f) ∷ es) hp (here, hs) = ground (
  arith,
  last_listed-with_suffix s t p es hp hs,
  eq_iff q p,
  eq_iff (suffix s) (suffix t),
  eq_iff (join q (suffix t)) (join p (suffix s)),
  key-inj q p t s here hp,
)

-- The first of the five sources, the last loop first, that has the key
abbrev picked : (FeedSource → Option OracleFeed) → Option OracleFeed
picked found = first_of (found book) (
    first_of (found cached_feed)
      (first_of (found cached_pyth) (first_of (found switchboard) (found pyth))))

lookup-oracle_feeds :
    (d : DeploymentsFile) (k : String)
    → lookup k (oracle_feeds d) ≡ picked (λ s. last_listed k (with_suffix s (listed s d)))
unfolding oracle_feeds listed
lookup-oracle_feeds d k = simp (lookup-put_feeds, map-feed_entry, map-book_entry) (ground arith)

picked-eq :
    (d : DeploymentsFile) (s : FeedSource) (p : String) {found : FeedSource → Option OracleFeed}
    → ((t : FeedSource)
        → found t ≡ (if suffix s == suffix t then last_listed p (listed t d) else none))
    → picked found ≡ last_listed p (listed s d)
unfolding suffix
picked-eq d pyth p h = ground (arith, h book, h cached_feed, h cached_pyth, h switchboard, h pyth)
picked-eq d switchboard p h =
    ground (arith, h book, h cached_feed, h cached_pyth, h switchboard, h pyth)
picked-eq d cached_pyth p h =
    ground (arith, h book, h cached_feed, h cached_pyth, h switchboard, h pyth)
picked-eq d cached_feed p h =
    ground (arith, h book, h cached_feed, h cached_pyth, h switchboard, h pyth)
picked-eq d book p h = ground (arith, h book, h cached_feed, h cached_pyth, h switchboard, h pyth)

-- Where no pair has a dash, what the five loops leave under the key of a pair and a source is the last feed
-- of that source with that pair, and nothing where there is none.
pub build_oracle-lookup :
    (d : DeploymentsFile) (s : FeedSource) (p : String)
    → is_plain p ≡ true
    → ((t : FeedSource) → ArePlain (listed t d))
    → lookup (join p (suffix s)) (build_oracle d).feeds ≡ last_listed p (listed s d)
unfolding build_oracle
build_oracle-lookup d s p hp plain =
    lookup-oracle_feeds d (join p (suffix s))
    ∙ picked-eq d s p (λ t. last_listed-with_suffix s t p (listed t d) hp (plain t))
