-- ===== src/Placement/Connected/Follow.antt =====
-- One round of the walk: which ids it sees and queues.
use tenstorrent_dra_framewor.Base.{
  ◌+◌, ◌≡◌, refl, String, Bool, not, ◌&&◌, ◌||◌, List, [], ◌∷◌, ◌==◌, contains, contains-append,
  length, length-append, any, arith,
}
use tenstorrent_dra_framewor.Base.{string_eq}
use tenstorrent_dra_framewor.Base.Distinct.{Distinct}
use tenstorrent_dra_framewor.Api.{TopologyLink}
use tenstorrent_dra_framewor.Placement.Connected.{Walk, visit_link, follow}

-- The link is up and leads to the id.
abbrev pub leads_to : String → TopologyLink → Bool
leads_to v link = link.state == "up" && link.remote_endpoint_id == v

module _ (selected : List String) where
  contains-visit_seen :
      (link : TopologyLink) (w : Walk) (v : String)
      → contains (visit_link selected link w).seen v
        ≡ (contains w.seen v || (contains selected v && leads_to v link))
  unfolding visit_link
  contains-visit_seen link w v = ground arith

  contains-visit_queue :
      (link : TopologyLink) (w : Walk) (v : String)
      → contains (visit_link selected link w).queue v ≡ (
          contains w.queue v
          || (not (contains w.seen v) && (contains selected v && leads_to v link)))
  unfolding visit_link
  contains-visit_queue link w v =
      ground (arith, contains-append w.queue (link.remote_endpoint_id ∷ []) v)

  visit-Distinct :
      (link : TopologyLink) (w : Walk)
      → Distinct w.seen
      → Distinct (visit_link selected link w).seen
  unfolding visit_link
  visit-Distinct link w d = ground arith

  length-visit :
      (link : TopologyLink) (w : Walk)
      → length (visit_link selected link w).seen + length w.queue
        ≡ length w.seen + length (visit_link selected link w).queue
  unfolding visit_link
  length-visit link w = ground (arith, length-append w.queue (link.remote_endpoint_id ∷ []))

  pub contains-follow_seen :
      (links : List TopologyLink) (w : Walk) (v : String)
      → contains (follow selected links w).seen v
        ≡ (contains w.seen v || (contains selected v && any (leads_to v) links))
  unfolding follow
  contains-follow_seen [] w v = ground arith
  contains-follow_seen (link ∷ links) w v = ground (
    arith,
    contains-follow_seen links (visit_link selected link w) v,
    contains-visit_seen link w v,
  )

  pub contains-follow_queue :
      (links : List TopologyLink) (w : Walk) (v : String)
      → contains (follow selected links w).queue v ≡ (
          contains w.queue v
          || (not (contains w.seen v) && (contains selected v && any (leads_to v) links)))
  unfolding follow
  contains-follow_queue [] w v = ground arith
  contains-follow_queue (link ∷ links) w v = ground (
    arith,
    contains-follow_queue links (visit_link selected link w) v,
    contains-visit_queue link w v,
    contains-visit_seen link w v,
  )

  pub follow-Distinct :
      (links : List TopologyLink) (w : Walk)
      → Distinct w.seen
      → Distinct (follow selected links w).seen
  unfolding follow
  follow-Distinct [] w d = d
  follow-Distinct (link ∷ links) w d =
      follow-Distinct links (visit_link selected link w) (visit-Distinct link w d)

  -- What is newly seen is newly queued.
  pub length-follow :
      (links : List TopologyLink) (w : Walk)
      → length (follow selected links w).seen + length w.queue
        ≡ length w.seen + length (follow selected links w).queue
  unfolding follow
  length-follow [] w = refl
  length-follow (link ∷ links) w =
      omega (arith, length-follow links (visit_link selected link w), length-visit link w)
