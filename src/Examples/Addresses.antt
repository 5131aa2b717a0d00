-- ===== src/Examples/Addresses.antt =====
-- The dialer of the development mode on a concrete address.
use bufstream_operator.Prelude.{◌≡◌, [], ◌∷◌}
use bufstream_operator.Bufstream.DevMode.{codes, to_lower, dialed_address}
use bufstream_operator.Bufstream.DevMode.Redirects.{NoColon, join, dialed_address-redirected}

host-NoColon : NoColon (codes "Kafka.demo.svc.cluster.LOCAL")
host-NoColon = search tt depth 40

dialed_address-redirected_example :
    dialed_address (join (codes "Kafka.demo.svc.cluster.LOCAL") (codes "9092" ∷ []))
    ≡ codes "localhost:9092"
unfolding to_lower
dialed_address-redirected_example =
    dialed_address-redirected (codes "Kafka.demo.svc.cluster.LOCAL") (codes "9092" ∷ [])
      host-NoColon (search tt depth 12)
