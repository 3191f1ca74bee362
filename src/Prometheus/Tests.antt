-- ===== src/Prometheus/Tests.antt =====
-- Runs of the encoders, on values that need escapes and on the largest sums.
use metrics.Common.{
  ◌+◌, ◌*◌, ◌%◌, ◌≤◌, ◌<◌, ◌≡◌, refl, some, false, [], ◌∷◌, ◌++◌, Bytes, codes, arith, length,
}
use metrics.Slot.{u64_max}
use metrics.Resource.{read, shared}
use metrics.Prometheus.Source.{Source, SourceKind, timing}
use metrics.Prometheus.Sample.{write_labels}
use metrics.Prometheus.Labels.{pairs_text, pairs_of, write_labels-pairs_text}
use metrics.Prometheus.Label.{escape_byte, escape, read_value, read_value-escape}
use metrics.Prometheus.Number.{digits, decimal, two_digits, hundredths, seconds_text}
use metrics.Prometheus.Number.Seconds.{read_seconds, hundredths-nearest, read_seconds-seconds_text}

-- `a"b\` and a newline
abbrev awkward : Bytes
awkward = codes "a" ++ b'"' ∷ codes "b" ++ b'\\' ∷ b'\n' ∷ []

escaped : escape awkward ≡ b'a' ∷ b'\\' ∷ b'"' ∷ b'b' ∷ b'\\' ∷ b'\\' ∷ b'\\' ∷ b'n' ∷ []
unfolding escape escape_byte
escaped = refl

largest : seconds_text u64_max ≡ codes "18446744073709.55"
unfolding seconds_text two_digits decimal digits hundredths
largest = refl

rounds_up : seconds_text 5_000 ≡ codes "0.01"
unfolding seconds_text two_digits decimal digits hundredths
rounds_up = refl

read_value-escape_example :
    read_value false (escape awkward ++ b'"' ∷ codes "} 1") ≡ some (awkward, codes "} 1")
read_value-escape_example = read_value-escape awkward (codes "} 1")

hundredths-nearest_example :
    (10_000 * hundredths u64_max ≤ u64_max + 5_000)
    × (u64_max < 10_000 * hundredths u64_max + 5_000)
hundredths-nearest_example = hundredths-nearest u64_max (omega arith)

read_seconds-seconds_text_example :
    (read_seconds (seconds_text u64_max ++ b'\n' ∷ []) ≡ some (hundredths u64_max, b'\n' ∷ []))
    × (length (two_digits (hundredths u64_max % 100)) ≡ 2)
read_seconds-seconds_text_example = read_seconds-seconds_text u64_max (b'\n' ∷ []) refl

abbrev shard_source : Source
shard_source = record {
  output = record {
    metric_type = codes "API";
    name = awkward;
    resource =
        some (record {
          name = awkward;
          endpoint = codes "h:1";
          access = some read;
          role = some shared;
        });
  };
  kind = SourceKind.api 503;
  item = timing (record { region = 0; chunk = 0; offset = 0 });
}

write_labels-pairs_text_example :
    write_labels (codes "brz_req_total") shard_source
    ≡ codes "brz_req_total"
      ++ (codes "{type=\""
          ++ (escape (codes "API") ++ (pairs_text (pairs_of shard_source) ++ codes "\"} ")))
write_labels-pairs_text_example = write_labels-pairs_text (codes "brz_req_total") shard_source
