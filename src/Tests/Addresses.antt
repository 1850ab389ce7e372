-- ===== src/Tests/Addresses.antt =====
-- Runs of the addresses and the task ids.
use secan.Base.{◌≡◌, none, some, arith}
use secan.Base.Decimal.{Without}
use secan.Routes.{parse_cluster_path, build_cluster_section_url, is_valid_cluster_section}
use secan.Routes.RoundTrip.{parse_cluster_path-build_cluster_section_url}

no_slash : Without b'/' "prod"
no_slash = (omega arith, (omega arith, (omega arith, (omega arith, tt))))

parse_cluster_path-build_cluster_section_url_example :
    parse_cluster_path (λ text. none) (build_cluster_section_url "prod" (some "nodes"))
    ≡ record { cluster_id = some "prod"; section = some "nodes" }
unfolding is_valid_cluster_section
parse_cluster_path-build_cluster_section_url_example =
    parse_cluster_path-build_cluster_section_url (λ text. none) "prod" (some "nodes") (λ e. cc e)
      no_slash
