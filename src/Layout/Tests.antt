-- ===== src/Layout/Tests.antt =====
-- Runs of the layout parser.
use libtmux_go.Base.{◌≡◌, refl, some, Bytes, codes, length}
use libtmux_go.Text.{parse_uint}
use libtmux_go.Layout.Fuel.{Settled, cell-fuel_for}
use libtmux_go.Layout.{
  take_byte, span_digits, number, geometry, pane_id, opening, checksum, cell, count_cells, fuel_for,
}

abbrev two_panes : Bytes
two_panes = codes "020a,80x24,0,0{40x24,0,0,1,39x24,41,0,2}"

count_two_panes : count_cells two_panes ≡ some 2
unfolding take_byte span_digits number geometry pane_id opening checksum cell count_cells parse_uint
count_two_panes = refl

cell-fuel_for_example : Settled (length two_panes) (cell (fuel_for two_panes) 0 two_panes)
cell-fuel_for_example = cell-fuel_for two_panes
