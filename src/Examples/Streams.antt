-- ===== src/Examples/Streams.antt =====
-- The theorems on grpc_ingester at a cursor with one write in flight, and at a host.
use das.Prelude.{[], ◌∷◌, Text, All, length, false, ◌≡◌, ◌≤◌, refl, arith, true, none, some}
use das.Ingester.Cursor.{Inner, load, begin, end, finalized, count_up, count_down, advance}
use das.Ingester.Cursor.InFlight.{Step, Reachable, all_above, Reachable-all_above}
use das.Ingester.Cursor.Progress.{is_at_least, end_catches_up}
use das.Ingester.Guard.{Ipv4Addr, is_global_v4}
use das.Ingester.Guard.Redirects.{Url, Host, Reached, host_allowed, requested, requested-Reached}

-- A write of slot 12 is in flight, slot 15 is finalized.
abbrev busy : Inner
busy = finalized 15 (begin 12 (load (some 10) none))

busy-Reachable : Reachable busy
unfolding load
busy-Reachable =
    Reachable.steps
      (Reachable.steps (Reachable.loads (some 10) none)
        (Step.begins _ 12 (omega arith) (ground arith)))
      (Step.finalizes _ 15)

Reachable-all_above_example : all_above busy.watermark busy.pending ≡ true
Reachable-all_above_example = Reachable-all_above busy busy-Reachable

busy-watermark : busy.watermark ≡ some 11
unfolding load begin finalized count_up advance
busy-watermark = refl

end_catches_up_example : is_at_least (some 14) (end 12 busy).watermark ≡ true
unfolding load begin end finalized count_up count_down advance
end_catches_up_example = end_catches_up busy 12 15 refl refl

-- The address of a cloud's metadata service.
abbrev metadata_service : Ipv4Addr
metadata_service = record { o0 = 169; o1 = 254; o2 = 169; o3 = 254 }

metadata_service-blocked : is_global_v4 metadata_service ≡ false
unfolding is_global_v4
metadata_service-blocked = refl

-- https://example.org redirects to 10.0.0.1.
abbrev web : Text
web = 104 ∷ (116 ∷ (116 ∷ (112 ∷ (115 ∷ []))))

abbrev site : Url
site = record { scheme = web; host = some (Host.domain (101 ∷ [])) }

abbrev inside : Url
inside = record {
  scheme = web;
  host = some (Host.ipv4 (record { o0 = 10; o1 = 0; o2 = 0; o3 = 1 }));
}

requested-Reached_example :
    All Reached (requested 1 site (inside ∷ [])) × (length (requested 1 site (inside ∷ [])) ≤ 5)
unfolding host_allowed
requested-Reached_example = requested-Reached site (inside ∷ []) refl refl
