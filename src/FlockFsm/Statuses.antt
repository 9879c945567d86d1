-- ===== src/FlockFsm/Statuses.antt =====
-- The constants of status_t.
use flocksy.FlockFsm.Types.{Status}

abbrev pub null_status : Status
null_status = 0

abbrev pub status_100 : Status
status_100 = 100

abbrev pub status_110 : Status
status_110 = 110

abbrev pub status_111 : Status
status_111 = 111

abbrev pub status_112 : Status
status_112 = 112

abbrev pub status_113 : Status
status_113 = 113

abbrev pub status_114 : Status
status_114 = 114

abbrev pub status_115 : Status
status_115 = 115

abbrev pub status_116 : Status
status_116 = 116

abbrev pub status_117 : Status
status_117 = 117

abbrev pub status_120 : Status
status_120 = 120

abbrev pub status_121 : Status
status_121 = 121

abbrev pub status_122 : Status
status_122 = 122

abbrev pub status_124 : Status
status_124 = 124

abbrev pub status_125 : Status
status_125 = 125

abbrev pub status_126 : Status
status_126 = 126

abbrev pub status_130 : Status
status_130 = 130

abbrev pub status_131 : Status
status_131 = 131

abbrev pub status_132 : Status
status_132 = 132

abbrev pub status_134 : Status
status_134 = 134

abbrev pub status_135 : Status
status_135 = 135

abbrev pub status_136 : Status
status_136 = 136

abbrev pub status_140 : Status
status_140 = 140

abbrev pub status_141 : Status
status_141 = 141

abbrev pub status_142 : Status
status_142 = 142

abbrev pub status_145 : Status
status_145 = 145

abbrev pub status_146 : Status
status_146 = 146

abbrev pub status_147 : Status
status_147 = 147

abbrev pub status_150 : Status
status_150 = 150

abbrev pub status_155 : Status
status_155 = 155

abbrev pub status_156 : Status
status_156 = 156

abbrev pub status_160 : Status
status_160 = 160

abbrev pub status_161 : Status
status_161 = 161

abbrev pub status_162 : Status
status_162 = 162

abbrev pub status_164 : Status
status_164 = 164

abbrev pub status_165 : Status
status_165 = 165

abbrev pub status_166 : Status
status_166 = 166

abbrev pub status_170 : Status
status_170 = 170

abbrev pub status_171 : Status
status_171 = 171

abbrev pub status_172 : Status
status_172 = 172

abbrev pub status_173 : Status
status_173 = 173

abbrev pub status_174 : Status
status_174 = 174

abbrev pub status_175 : Status
status_175 = 175

abbrev pub status_177 : Status
status_177 = 177

abbrev pub status_178 : Status
status_178 = 178

abbrev pub status_200 : Status
status_200 = 200

abbrev pub status_210 : Status
status_210 = 210

abbrev pub status_300 : Status
status_300 = 300

abbrev pub status_301 : Status
status_301 = 301

abbrev pub status_304 : Status
status_304 = 304

abbrev pub status_320 : Status
status_320 = 320

abbrev pub status_324 : Status
status_324 = 324

abbrev pub status_410 : Status
status_410 = 410

abbrev pub status_500 : Status
status_500 = 500
