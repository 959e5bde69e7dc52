-- ===== src/Ingester/Retry/Markers.antt =====
-- grpc_ingester/src/retry.rs: `is_retryable`, on texts as code points.
use das.Prelude.{◌+◌, Bool, true, false, ◌&&◌, List, [], ◌∷◌, Text, leb, ◌==◌, if◌then◌else◌}

-- `to_ascii_lowercase`
abbrev pub to_ascii_lowercase : Text → Text
to_ascii_lowercase [] = []
to_ascii_lowercase (c ∷ s) = (if leb 65 c && leb c 90 then c + 32 else c) ∷ to_ascii_lowercase s

abbrev pub starts_with : Text → Text → Bool
starts_with [] s = true
starts_with (c ∷ p) [] = false
starts_with (c ∷ p) (d ∷ s) = let rest = starts_with p s in if c == d then rest else false

-- `s.contains(p)`
abbrev pub contains : Text → Text → Bool
contains p [] = starts_with p []
contains p (c ∷ s) = let rest = contains p s in if starts_with p (c ∷ s) then true else rest

-- "40001", "restart transaction", "transactionretry", "pool timed out",
-- "error communicating with database", "connection refused", "connection reset", "broken pipe"
abbrev pub markers : List Text
markers =
    (52 ∷ (48 ∷ (48 ∷ (48 ∷ (49 ∷ [])))))
    ∷ ((114
          ∷ (101
              ∷ (115
                  ∷ (116
                      ∷ (97
                          ∷ (114
                              ∷ (116
                                  ∷ (32
                                      ∷ (116
                                          ∷ (114
                                              ∷ (97
                                                  ∷ (110
                                                      ∷ (115
                                                          ∷ (97
                                                            ∷ (99
                                                            ∷ (116
                                                            ∷ (105
                                                            ∷ (111 ∷ (110 ∷ [])))))))))))))))))))
        ∷ ((116
              ∷ (114
                  ∷ (97
                      ∷ (110
                          ∷ (115
                              ∷ (97
                                  ∷ (99
                                      ∷ (116
                                          ∷ (105
                                              ∷ (111
                                                  ∷ (110
                                                      ∷ (114
                                                          ∷ (101
                                                            ∷ (116
                                                            ∷ (114 ∷ (121 ∷ []))))))))))))))))
            ∷ ((112
                  ∷ (111
                      ∷ (111
                          ∷ (108
                              ∷ (32
                                  ∷ (116
                                      ∷ (105
                                          ∷ (109
                                              ∷ (101
                                                  ∷ (100
                                                      ∷ (32 ∷ (111 ∷ (117 ∷ (116 ∷ []))))))))))))))
                ∷ ((101
                      ∷ (114
                          ∷ (114
                              ∷ (111
                                  ∷ (114
                                      ∷ (32
                                          ∷ (99
                                              ∷ (111
                                                  ∷ (109
                                                      ∷ (109
                                                          ∷ (117
                                                            ∷ (110
                                                            ∷ (105
                                                            ∷ (99
                                                            ∷ (97
                                                            ∷ (116
                                                            ∷ (105
                                                            ∷ (110
                                                            ∷ (103
                                                            ∷ (32
                                                            ∷ (119
                                                            ∷ (105
                                                            ∷ (116
                                                            ∷ (104
                                                            ∷ (32
                                                            ∷ (100
                                                            ∷ (97
                                                            ∷ (116
                                                            ∷ (97
                                                            ∷ (98
                                                            ∷ (97
                                                            ∷ (115
                                                            ∷ (101
                                                            ∷ [])))))))))))))))))))))))))))))))))
                    ∷ ((99
                          ∷ (111
                              ∷ (110
                                  ∷ (110
                                      ∷ (101
                                          ∷ (99
                                              ∷ (116
                                                  ∷ (105
                                                      ∷ (111
                                                          ∷ (110
                                                            ∷ (32
                                                            ∷ (114
                                                            ∷ (101
                                                            ∷ (102
                                                            ∷ (117
                                                            ∷ (115
                                                            ∷ (101 ∷ (100 ∷ []))))))))))))))))))
                        ∷ ((99
                              ∷ (111
                                  ∷ (110
                                      ∷ (110
                                          ∷ (101
                                              ∷ (99
                                                  ∷ (116
                                                      ∷ (105
                                                          ∷ (111
                                                            ∷ (110
                                                            ∷ (32
                                                            ∷ (114
                                                            ∷ (101
                                                            ∷ (115
                                                            ∷ (101 ∷ (116 ∷ []))))))))))))))))
                            ∷ ((98
                                  ∷ (114
                                      ∷ (111
                                          ∷ (107
                                              ∷ (101
                                                  ∷ (110
                                                      ∷ (32
                                                          ∷ (112
                                                            ∷ (105 ∷ (112 ∷ (101 ∷ [])))))))))))
                                ∷ [])))))))

abbrev pub any_contained : List Text → Text → Bool
any_contained [] s = false
any_contained (m ∷ ms) s = let rest = any_contained ms s in if contains m s then true else rest

unfoldable pub is_retryable : Text → Bool
is_retryable error = any_contained markers (to_ascii_lowercase error)
