-- ===== src/Oracle/Feeds.antt =====
-- scripts/oracle/lib/emit-registry-update.ts: `buildOracle`. An object is an association list whose
-- `insert` replaces the value of a key that is there.
use Prim.Native.String.{◌++◌ as join}
use mathlib.Core.Option.{map as option_map}
use rome_solidity.Prelude.{String, none, some, List, [], ◌∷◌, map, insert, or_else, string_eq}
use rome_solidity.Oracle.{
  DeploymentsFeed, PriceBookFeed, PriceBook, DeploymentsFile, FeedSource, pyth, switchboard,
  cached_pyth, cached_feed, book, OracleFeed, RegistryPriceBook, RegistryOracleFile,
}

-- What the key of a feed has after its pair
unfoldable pub suffix : FeedSource → String
suffix pyth = ""
suffix switchboard = "-SB"
suffix cached_pyth = "-CACHEDPYTH"
suffix cached_feed = "-CACHED"
suffix book = "-BOOK"

unfoldable pub feed_entry : FeedSource → DeploymentsFeed → String × OracleFeed
unfolding suffix
feed_entry source f = (
  join f.pair (suffix source),
  record { address = f.adapter; source = source; underlying_account = some f.pubkey },
)

unfoldable pub book_entry : PriceBookFeed → String × OracleFeed
unfolding suffix
book_entry f = (
  join f.pair (suffix book),
  record { address = f.adapter; source = book; underlying_account = some f.pubkey },
)

-- One loop: `feeds[key] = entry` for each entry, in order
unfoldable pub put_feeds :
    List (String × OracleFeed) → List (String × OracleFeed) → List (String × OracleFeed)
put_feeds [] feeds = feeds
put_feeds ((k, f) ∷ entries) feeds = put_feeds entries (insert k f feeds)

-- `deployments.PriceBook?.feeds ?? []`
unfoldable pub book_feeds : DeploymentsFile → List PriceBookFeed
book_feeds d = elim d.price_book [ none ↦ [] | some b ↦ b.feeds ]

unfoldable pub oracle_feeds : DeploymentsFile → List (String × OracleFeed)
unfolding put_feeds feed_entry book_entry book_feeds
oracle_feeds d =
    let og = d.oracle_gateway_v2.feeds in
    let raw = put_feeds (map (feed_entry pyth) og.pyth) [] in
    let sb = put_feeds (map (feed_entry switchboard) og.switchboard) raw in
    let cp = put_feeds (map (feed_entry cached_pyth) (or_else og.cached_pyth [])) sb in
    let cf = put_feeds (map (feed_entry cached_feed) (or_else og.cached_feed [])) cp in
    put_feeds (map book_entry (book_feeds d)) cf

registry_price_book : PriceBook → RegistryPriceBook
registry_price_book b = record { address = b.address; implementation = b.implementation }

unfoldable pub build_oracle : DeploymentsFile → RegistryOracleFile
unfolding oracle_feeds registry_price_book
build_oracle d = record {
  factory = d.oracle_gateway_v2.oracle_adapter_factory;
  price_book = option_map registry_price_book d.price_book;
  feeds = oracle_feeds d;
}
